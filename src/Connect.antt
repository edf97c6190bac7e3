-- ===== src/Connect.antt =====
-- web/src/ConnectAgentModal.tsx: the command that enrolls an agent. A handler that waits is two
-- functions: what it does before it waits, and after, with the outcome of the call. `string_of` is
-- `String(e)`, of an error with its message.
pub mod Command
pub mod Tests
use marshal_pm.Base.{
  Bool, true, false, not, Option, none, some, List, [], ◌∷◌, ◌++◌, Text, codes, trim, or_else,
  is_blank, if◌then◌else◌, Outcome, returned, threw,
}
use marshal_pm.Api.Types.{ConnectInfo}
use marshal_pm.Api.Http.{Fetch}
use marshal_pm.Api.Fleet.{connect_token}

pub record Connect : Type 0 where
  pub name : Text
  pub address : Text
  pub cmd : Text
  pub busy : Bool
  pub error : Text
  pub copied : Bool

unfoldable pub opened : Connect
opened = record {
  name = codes "agent";
  address = [];
  cmd = [];
  busy = false;
  error = [];
  copied = false;
}

abbrev pub line_end : Text
line_end = 10 ∷ []

-- The template of the command.
unfoldable pub command_of : (addr name token fingerprint : Text) → Text
command_of addr name token fingerprint =
    codes "cat > marshal.yaml <<'EOF'"
    ++ (line_end
        ++ (codes "server:"
            ++ (line_end
                ++ ((codes "  address: " ++ addr)
                    ++ (line_end
                        ++ ((codes "  name: " ++ name)
                            ++ (line_end
                                ++ ((codes "  token: " ++ token)
                                    ++ (line_end
                                        ++ ((codes "  fingerprint: " ++ fingerprint)
                                            ++ (line_end
                                                ++ (codes "EOF"
                                                    ++ (line_end
                                                        ++ codes
                                                            "marshal start marshal.yaml")))))))))))))

unfoldable pub begin_generate : Connect → Connect
begin_generate s = record s { busy = true; error = []; copied = false }

-- The address that the command names, and its name.
abbrev pub addr_of : Text → ConnectInfo → Text
addr_of address info = or_else (trim address) info.default_address

abbrev pub name_of : Text → Text
name_of name = or_else (trim name) (codes "agent")

module _ (string_of : Text → Text) where
  -- The end, with the address and the name of the rendering in which the button was clicked.
  unfoldable pub end_generate : (address name : Text) → Outcome ConnectInfo → Connect → Connect
  unfolding trim
  end_generate address name (threw e) s = record s { error = string_of e; busy = false }
  end_generate address name (returned info) s = record s {
    address = addr_of address info;
    cmd = command_of (addr_of address info) (name_of name) info.token info.fingerprint;
    busy = false;
  }

  unfoldable pub generate : {N : Type 0} → Fetch N ConnectInfo → Connect → Connect
  unfolding begin_generate end_generate
  generate fetch s =
      end_generate s.address s.name (connect_token fetch s.address s.name) (begin_generate s)

unfoldable pub set_name : Text → Connect → Connect
set_name v s = record s { name = v }

unfoldable pub set_address : Text → Connect → Connect
set_address v s = record s { address = v }

-- The end of `navigator.clipboard.writeText`, which may be refused.
unfoldable pub copy_done : Outcome (Unit {0}) → Connect → Connect
copy_done (returned u) s = record s { copied = true }
copy_done (threw e) s = record s { error = codes "Copy failed — please copy the command manually." }

-- The button of the footer: it closes, or copies the command.
pub data FooterButton : Type 0 where
  close_button : FooterButton
  copy_button : (label : Text) → FooterButton

unfoldable pub footer : Connect → FooterButton
footer s =
    if is_blank s.cmd
    then close_button
    else copy_button (if s.copied then codes "copied" else codes "copy command")

-- What stands below the form: the error, and the command with its warning.
unfoldable pub result_view : Connect → Option Text × Option Text
result_view s =
    ((if is_blank s.error then none else some s.error), if is_blank s.cmd then none else some s.cmd)
