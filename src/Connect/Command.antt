-- ===== src/Connect/Command.antt =====
-- The command, and the end of a call.
use marshal_pm.Base.{
  all, not, ◌⊎◌, inl, inr, ◌==◌, ◌↔◌, ◌≡◌, ◌≢◌, refl, ap, ◌∙◌, arith, true, false, List, [], ◌∷◌,
  ◌++◌, Text, codes, trim, split_on, split_on-append, split_on-Lacks, Lacks, All-append, is_blank,
  Outcome, returned, threw,
}
use marshal_pm.Api.Types.{ConnectInfo}
use marshal_pm.Api.Http.{Fetch}
use marshal_pm.Api.Fleet.{connect_token}
use marshal_pm.Connect.{
  Connect, begin_generate, end_generate, generate, command_of, addr_of, name_of, line_end,
}

-- A literal on one line is one, by computation.
pub one_line : (s : Text) → all (λ d. not (d == 10)) s ≡ true → Lacks 10 s
one_line [] h = tt
one_line (c ∷ s) h = (ground (arith, h), one_line s (ground (arith, h)))

next_line :
    (w rest : Text) (ls : List Text)
    → Lacks 10 w
    → split_on 10 rest ≡ ls
    → split_on 10 (w ++ (line_end ++ rest)) ≡ w ∷ ls
next_line w rest ls h e = split_on-append 10 w rest h ∙ ap (w ∷◌) e

next_entry :
    (key w rest : Text) (ls : List Text)
    → all (λ d. not (d == 10)) key ≡ true
    → Lacks 10 w
    → split_on 10 rest ≡ ls
    → split_on 10 ((key ++ w) ++ (line_end ++ rest)) ≡ (key ++ w) ∷ ls
next_entry key w rest ls k h e =
    next_line (key ++ w) rest ls (All-append (λ d. d ≢ 10) key w (one_line key k) h) e

next_literal :
    (w rest : Text) (ls : List Text)
    → all (λ d. not (d == 10)) w ≡ true
    → split_on 10 rest ≡ ls
    → split_on 10 (w ++ (line_end ++ rest)) ≡ w ∷ ls
next_literal w rest ls h e = next_line w rest ls (one_line w h) e

-- The command has eight lines, if no value breaks its own.
command_lines :
    (addr name token fingerprint : Text)
    → Lacks 10 addr
    → Lacks 10 name
    → Lacks 10 token
    → Lacks 10 fingerprint
    → split_on 10 (command_of addr name token fingerprint)
      ≡ codes "cat > marshal.yaml <<'EOF'"
        ∷ codes "server:"
        ∷ (codes "  address: " ++ addr)
        ∷ (codes "  name: " ++ name)
        ∷ (codes "  token: " ++ token)
        ∷ (codes "  fingerprint: " ++ fingerprint)
        ∷ codes "EOF"
        ∷ codes "marshal start marshal.yaml"
        ∷ []
unfolding command_of
command_lines addr name token fingerprint la ln lt lf =
    next_literal (codes "cat > marshal.yaml <<'EOF'") _ _ refl (
      next_literal (codes "server:") _ _ refl (
        next_entry (codes "  address: ") addr _ _ refl la (
          next_entry (codes "  name: ") name _ _ refl ln (
            next_entry (codes "  token: ") token _ _ refl lt (
              next_entry (codes "  fingerprint: ") fingerprint _ _ refl lf (
                next_literal (codes "EOF") _ _ refl (
                  let last = codes "marshal start marshal.yaml" in
                  split_on-Lacks 10 last (one_line last refl))))))))

-- The call returned this, and its values stay on their lines.
abbrev pub OneLine : Text → Text → ConnectInfo → Type 0
OneLine address name info =
    Lacks 10 (addr_of address info)
    × Lacks 10 (name_of name)
    × Lacks 10 info.token
    × Lacks 10 info.fingerprint

-- Where the server gives a token, and no value has a line break, the dialog shows the command with
-- just the eight lines of the configuration and of its start, with the typed address and name or
-- else those of the server and `agent`, and no error; it takes input again, and its address is the
-- one that the command names.
pub generate-returned :
    {N : Type 0} (string_of : Text → Text) (fetch : Fetch N ConnectInfo) (s : Connect)
    (info : ConnectInfo)
    → connect_token fetch s.address s.name ≡ returned info
    → OneLine s.address s.name info
    → let s' = generate string_of fetch s in
      (split_on 10 s'.cmd
        ≡ codes "cat > marshal.yaml <<'EOF'"
          ∷ codes "server:"
          ∷ (codes "  address: " ++ addr_of s.address info)
          ∷ (codes "  name: " ++ name_of s.name)
          ∷ (codes "  token: " ++ info.token)
          ∷ (codes "  fingerprint: " ++ info.fingerprint)
          ∷ codes "EOF"
          ∷ codes "marshal start marshal.yaml"
          ∷ [])
      × (s'.address ≡ addr_of s.address info)
      × (s'.busy ≡ false)
      × (s'.error ≡ [])
unfolding generate begin_generate end_generate trim
generate-returned string_of fetch s info m (la, ln, lt, lf) = rw m (
  command_lines (addr_of s.address info) (name_of s.name) info.token info.fingerprint la ln lt lf,
  refl,
  refl,
  refl,
)

end_generate-busy :
    (string_of : Text → Text) (m : Outcome ConnectInfo) (s : Connect)
    → ((e : Text) → is_blank (string_of e) ≡ false)
    → let s' = end_generate string_of s.address s.name m (begin_generate s) in
      (s'.busy ≡ false)
      × (((e : Text) × (m ≡ threw e)) ↔ (is_blank s'.error ≡ false))
      × ((s'.cmd ≡ s.cmd) ⊎ (s'.error ≡ []))
unfolding end_generate begin_generate
end_generate-busy string_of (threw e) s shown = (refl, ((λ h. shown e), λ h. (e, refl)), inl refl)
end_generate-busy string_of (returned info) s shown = (refl, ((λ (e, h). cc), λ h. cc), inr refl)

-- However the call ends, the dialog takes input again, and it shows an error exactly if the call
-- failed, given that an error's text is not empty; unless there is no error, the command is the one that was there before.
pub generate-busy :
    {N : Type 0} (string_of : Text → Text) (fetch : Fetch N ConnectInfo) (s : Connect)
    → ((e : Text) → is_blank (string_of e) ≡ false)
    → let s' = generate string_of fetch s in
      (s'.busy ≡ false)
      × (((e : Text) × (connect_token fetch s.address s.name ≡ threw e))
          ↔ (is_blank s'.error ≡ false))
      × ((s'.cmd ≡ s.cmd) ⊎ (s'.error ≡ []))
unfolding generate
generate-busy string_of fetch s shown =
    end_generate-busy string_of (connect_token fetch s.address s.name) s shown
