-- ===== src/Creds/Tests.antt =====
-- A form with a token, for a server that stores it.
use marshal_pm.Base.{◌≡◌, ◌↔◌, refl, true, false, none, [], codes, returned, trim}
use marshal_pm.Api.Creds.{create_credential}
use marshal_pm.Creds.{Creds, https_token, disabled_reason, handle_create}
use marshal_pm.Creds.Form.{handle_create-token}
use marshal_pm.Ui.Notice.{no_notice}
use marshal_pm.Samples.{replies}

abbrev form : Creds
form = record {
  creds = [];
  loading = false;
  kind = https_token;
  name = codes "github";
  username = codes "bot";
  token = codes "s3cret";
  busy = false;
  error = [];
  delete_target = none;
  new_public_key = [];
  notice = no_notice;
}

form_complete : disabled_reason form ≡ none
unfolding disabled_reason trim
form_complete = refl

stored :
    create_credential (replies 201 tt) (trim form.name) (trim form.username) form.token
    ≡ returned (record { ok = true; error = none })
unfolding create_credential
stored = refl

handle_create-token_example :
    (((handle_create (replies 200 []) (replies 201 none) (replies 201 tt) form).token ≡ [])
      ↔ (true ≡ true))
    × ((handle_create (replies 200 []) (replies 201 none) (replies 201 tt) form).busy ≡ false)
    × ((handle_create (replies 200 []) (replies 201 none) (replies 201 tt) form).new_public_key
        ≡ [])
handle_create-token_example =
    handle_create-token (replies 200 []) (replies 201 none) (replies 201 tt) form
      (record { ok = true; error = none }) refl form_complete stored
