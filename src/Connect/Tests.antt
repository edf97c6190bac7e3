-- ===== src/Connect/Tests.antt =====
-- A dialog with a typed name, for a server that gives a token.
use marshal_pm.Base.{◌≡◌, ◌++◌, refl, false, [], ◌∷◌, Text, codes, split_on, trim, returned}
use marshal_pm.Api.Types.{ConnectInfo}
use marshal_pm.Api.Fleet.{connect_token}
use marshal_pm.Connect.{Connect, generate, addr_of, name_of}
use marshal_pm.Connect.Command.{OneLine, one_line, generate-returned}
use marshal_pm.Samples.{replies}

abbrev info : ConnectInfo
info = record {
  token = codes "t0k";
  fingerprint = codes "ab:cd";
  default_address = codes "host:9000";
}

abbrev dialog : Connect
dialog = record {
  name = codes " web ";
  address = [];
  cmd = [];
  busy = false;
  error = [];
  copied = false;
}

abbrev error_text : Text → Text
error_text message = codes "Error: " ++ message

values-OneLine : OneLine dialog.address dialog.name info
unfolding trim
values-OneLine = (
  one_line (codes "host:9000") refl,
  one_line (codes "web") refl,
  one_line (codes "t0k") refl,
  one_line (codes "ab:cd") refl,
)

given : connect_token (replies 200 info) dialog.address dialog.name ≡ returned info
unfolding connect_token
given = refl

generate-returned_example :
    (split_on 10 (generate error_text (replies 200 info) dialog).cmd
      ≡ codes "cat > marshal.yaml <<'EOF'"
        ∷ codes "server:"
        ∷ (codes "  address: " ++ addr_of dialog.address info)
        ∷ (codes "  name: " ++ name_of dialog.name)
        ∷ (codes "  token: " ++ info.token)
        ∷ (codes "  fingerprint: " ++ info.fingerprint)
        ∷ codes "EOF"
        ∷ codes "marshal start marshal.yaml"
        ∷ [])
    × ((generate error_text (replies 200 info) dialog).address ≡ addr_of dialog.address info)
    × ((generate error_text (replies 200 info) dialog).busy ≡ false)
    × ((generate error_text (replies 200 info) dialog).error ≡ [])
generate-returned_example =
    generate-returned error_text (replies 200 info) dialog info given values-OneLine
