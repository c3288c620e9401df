-- ===== src/Decoy/Serve/Captured.antt =====
-- The dialog of the FTP decoy with a client that sends a name and a password.
use getarp.Base.Exec.{ok}
use getarp.Base.{
  is_empty, ℕ, suc, ◌≤◌, String, ◌==◌, eq_iff, true, false, ◌&&◌, List, [], ◌∷◌, ◌++◌, lstrip,
  rstrip, strip, text_append, text_drop, length, map, All, ◌≡◌, inl, inr, refl, sym, ap, ◌∙◌, arith,
  Bool-cases,
}
use getarp.Json.{Value, obj, end}
use getarp.Decoy.Latin.{upper, starts}
use getarp.Decoy.Session.{
  Read, got, Session, Context, stamped, log_event, about, write, flushed, after_drain,
}
use getarp.Decoy.Ftp.{is_command, dialog, log_login, credentials, handle_ftp}
use getarp.Decoy.Serve.{Bytes, ftp, run_handler, settle, new_session, serve}

-- a line that is no command that the decoy knows
abbrev pub IsNoise : String → Type 0
IsNoise line =
    ((line == "") ≡ false)
    × (is_command "USER" (strip line) ≡ false)
    × (is_command "PASS" (strip line) ≡ false)

strip-empty : strip "" ≡ ""
unfolding strip lstrip rstrip
strip-empty = refl

filled : (line cmd : String) → strip line ≡ cmd → is_empty cmd ≡ false → (line == "") ≡ false
filled line cmd e h = elim (Bool-cases (line == "")) [
  | inr more ↦ more
  | inl over ↦
      let empty : cmd ≡ "" = sym e ∙ ap strip ((eq_iff line "").0 over) ∙ strip-empty in
      absurd (ground (arith, ap is_empty empty))
]

-- no drain of the connection raises
abbrev pub IsCalm : Context → Type 0
IsCalm c = (n : ℕ) → c.drains n ≡ flushed

-- as many rounds more as there are lines
abbrev rounds_after : List String → ℕ → ℕ
rounds_after [] n = n
rounds_after (line ∷ lines) n = suc (rounds_after lines n)

-- noise changes only what was sent
dialog-noise :
    (c : Context) (noise : List String) (n : ℕ) (reads : List Read) (user passwd : String)
    (s : Session)
    → IsCalm c
    → All IsNoise noise
    → (t : Session) × (t.logged ≡ s.logged)
      × (dialog c (rounds_after noise n) (map got noise ++ reads) user passwd s
          ≡ dialog c n reads user passwd t)
unfolding dialog after_drain
dialog-noise c [] n reads user passwd s calm h = (s, refl, refl)
dialog-noise c (line ∷ noise) n reads user passwd s calm ((more, plain, silent), h) =
    rw (more, plain, silent, calm) (dialog-noise c noise n reads user passwd _ calm h)

is_command-user : (u : String) → is_command "USER" (text_append "USER " u) ≡ true
unfolding upper starts text_append
is_command-user u = refl

is_command-pass :
    (p : String)
    → (is_command "USER" (text_append "PASS " p) ≡ false)
      × (is_command "PASS" (text_append "PASS " p) ≡ true)
unfolding upper starts text_append
is_command-pass p = (refl, refl)

drop_name :
    (u p : String)
    → (text_drop 5 (text_append "USER " u) ≡ u) × (text_drop 5 (text_append "PASS " p) ≡ p)
unfolding text_drop text_append
drop_name u p = (refl, refl)

-- the two lines that carry the credentials
dialog-login :
    (c : Context) (n : ℕ) (l m u p : String) (reads : List Read) (s : Session)
    → IsCalm c
    → strip l ≡ text_append "USER " u
    → strip m ≡ text_append "PASS " p
    → (t : Session) × (t.logged ≡ s.logged)
      × (dialog c (suc (suc n)) (got l ∷ got m ∷ reads) "" "" s ≡ (ok (u, p), t))
unfolding dialog after_drain text_append
dialog-login c n l m u p reads s calm first second =
    let (other, same) = is_command-pass p in
    let asked = write "331 Please specify the password.\r\n" s in
    (
      write "530 Login incorrect.\r\n" asked,
      refl,
      rw
          (
            filled l _ first refl,
            first,
            is_command-user u,
            filled m _ second refl,
            second,
            other,
            same,
            (drop_name u p).0,
            (drop_name u p).1,
            calm,
            calm,
          )
          refl,
    )

abbrev pub connect_record : Context → Value
connect_record c = obj (stamped c 0 (about c "ftp" "connect" end))

abbrev pub login_record : Context → String → String → Value
login_record c u p = obj (stamped c 1 (about c "ftp" "login_attempt" (credentials u p)))

log_login_logged :
    (c : Context) (u p : String) (t : Session)
    → (u == "" && p == "") ≡ false
    → t.logged ≡ connect_record c ∷ []
    → (settle c (log_login c (ok (u, p), t))).logged ≡ connect_record c ∷ login_record c u p ∷ []
unfolding settle log_login log_event
log_login_logged c u p t told before = rw (told, before) refl

serve-rounds :
    (b : Bytes) (c : Context) (noise : List String) (n : ℕ) (l m u p : String) (reads : List Read)
    → IsCalm c
    → rounds_after noise (suc (suc n)) ≡ 4
    → All IsNoise noise
    → strip l ≡ text_append "USER " u
    → strip m ≡ text_append "PASS " p
    → (u == "" && p == "") ≡ false
    → (serve b ftp c (map got noise ++ got l ∷ got m ∷ reads)).logged
      ≡ connect_record c ∷ login_record c u p ∷ []
unfolding serve run_handler handle_ftp log_event after_drain
serve-rounds b c noise n l m u p reads calm four quiet first second told =
    let start =
      write "220 (vsFTPd 3.0.5)\r\n" (log_event c (about c "ftp" "connect" end) new_session) in
    let (t, same, e) =
      dialog-noise c noise (suc (suc n)) (got l ∷ got m ∷ reads) "" "" start calm quiet in
    let (v, same', e') = dialog-login c n l m u p reads t calm first second in
    let d : dialog c 4 (map got noise ++ got l ∷ got m ∷ reads) "" "" start ≡ (ok (u, p), v) =
      ap (λ k. dialog c k (map got noise ++ got l ∷ got m ∷ reads) "" "" start) (sym four)
      ∙ e
      ∙ e' in
    rw calm
      (ap (λ x. (settle c (log_login c x)).logged) d ∙ log_login_logged c u p v told (same' ∙ same))

-- If every answer is flushed, a client that sends a name and a password to the FTP decoy, after at most
-- two lines that are neither and whatever it sends afterwards, is logged with exactly these, as a login
-- attempt after its connection, unless both are empty.
pub serve_captures :
    (b : Bytes) (c : Context) (noise : List String) (l m u p : String) (reads : List Read)
    → IsCalm c
    → length noise ≤ 2
    → All IsNoise noise
    → strip l ≡ text_append "USER " u
    → strip m ≡ text_append "PASS " p
    → (u == "" && p == "") ≡ false
    → (serve b ftp c (map got noise ++ got l ∷ got m ∷ reads)).logged
      ≡ connect_record c ∷ login_record c u p ∷ []
serve_captures b c [] l m u p reads calm few = serve-rounds b c [] 2 l m u p reads calm refl
serve_captures b c (x ∷ []) l m u p reads calm few =
    serve-rounds b c (x ∷ []) 1 l m u p reads calm refl
serve_captures b c (x ∷ y ∷ []) l m u p reads calm few =
    serve-rounds b c (x ∷ y ∷ []) 0 l m u p reads calm refl
serve_captures b c (x ∷ y ∷ z ∷ noise) l m u p reads calm few = absurd (omega (arith, few))
