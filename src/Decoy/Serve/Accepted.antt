-- ===== src/Decoy/Serve/Accepted.antt =====
-- The records of the decoys, read by the pipeline's normalizer.
use getarp.Base.Exec.{Result, ok, raise}
use getarp.Base.{
  ℕ, zero, suc, String, ◌==◌, true, false, ◌&&◌, some, List, [], ◌∷◌, ◌++◌, length, All, strip, ◌≡◌,
  inl, inr, refl, Bool-cases,
}
use getarp.Json.{Value, Fields, str, obj, find, truthy}
use getarp.Ingest.Event.{Event}
use getarp.Ingest.Normalize.{complete, extra_event, norm_extra, extra, normalize}
use getarp.Decoy.Session.{
  Failure, reset, broken_pipe, other, Read, got, silent, broken, Session, Context, number, stamped,
  log_event, about, Drained, flushed, timed_out, refused, after_drain,
}
use getarp.Decoy.Http.{handle_http, received}
use getarp.Decoy.Mysql.{handle_mysql, deny}
use getarp.Decoy.Ftp.{Dialog, is_command, dialog, log_login, handle_ftp}
use getarp.Decoy.Redis.{mentions, answer, requests, handle_redis}
use getarp.Decoy.Serve.{
  Bytes, Handler, http, mysql, ftp, redis, run_handler, error_fields, settle, new_session, serve,
}

-- the normalizer makes an event of the record, with the source and the port of the connection
abbrev pub IsAccepted : (Value → String) → String → Context → Value → Type 0
IsAccepted to_text fresh c r =
    (e : Event) × (normalize to_text fresh extra r ≡ ok (some e))
    × (e.src_ip ≡ str c.peer.ip)
    × (e.dst_port ≡ number c.dst_port)
    × (e.raw ≡ r)

truthy-str : (s : String) → (s == "") ≡ false → truthy (str s) ≡ true
truthy-str String.[] h = cc
truthy-str (String.◌∷◌ ch s) h = refl

All-append :
    {A : Type 0} (P : A → Type 0) (xs : List A) (x : A) → All P xs → P x → All P (xs ++ x ∷ [])
All-append P [] x h p = (p, tt)
All-append P (y ∷ xs) x h p = (h.0, All-append P xs x h.1 p)

module _ (to_text : Value → String) (fresh : String) (c : Context)
    (dated : (n : ℕ) → (c.now n == "") ≡ false) (known : (c.peer.ip == "") ≡ false) where
  abbrev Good : Session → Type 0
  Good s = All (IsAccepted to_text fresh c) s.logged

  -- a record of a decoy
  log_about-Good :
      (service event_type : String) (more : Fields) (s : Session)
      → Good s
      → Good (log_event c (about c service event_type more) s)
  unfolding log_event normalize norm_extra complete find
  log_about-Good service event_type more s h =
      let n = length s.logged in
      let fs = stamped c n (about c service event_type more) in
      All-append (IsAccepted to_text fresh c) s.logged (obj fs) h (
        extra_event fresh (obj fs) fs,
        rw (truthy-str (c.now n) (dated n), truthy-str c.peer.ip known) refl,
        refl,
        refl,
        refl,
      )

  -- the record of an exception
  log_error-Good :
      (text : String) (s : Session) → Good s → Good (log_event c (error_fields c text) s)
  unfolding log_event normalize norm_extra complete find
  log_error-Good text s h =
      let n = length s.logged in
      let fs = stamped c n (error_fields c text) in
      All-append (IsAccepted to_text fresh c) s.logged (obj fs) h (
        extra_event fresh (obj fs) fs,
        rw (truthy-str (c.now n) (dated n), truthy-str c.peer.ip known) refl,
        refl,
        refl,
        refl,
      )

  after_drain-Good :
      {A : Type 0} (d : Drained) (late : String → Result Failure A) (s : Session)
      (next : Result Failure A × Session)
      → Good s
      → Good next.1
      → Good (after_drain d late s next).1
  unfolding after_drain
  after_drain-Good flushed late s next h k = k
  after_drain-Good (timed_out text) late s next h k = h
  after_drain-Good (refused f) late s next h k = h

  dialog-Good :
      (n : ℕ) (reads : List Read) (user passwd : String) (s : Session)
      → Good s
      → Good (dialog c n reads user passwd s).1
  unfolding dialog
  dialog-Good zero reads user passwd s h = h
  dialog-Good (suc n) [] user passwd s h = h
  dialog-Good (suc n) (silent ∷ reads) user passwd s h = h
  dialog-Good (suc n) (broken f ∷ reads) user passwd s h = h
  dialog-Good (suc n) (got line ∷ reads) user passwd s h = elim (Bool-cases (line == "")) [
    | inl over ↦ rw over h
    | inr more ↦ elim (Bool-cases (is_command "USER" (strip line))) [
      | inl named ↦ rw (more, named) (after_drain-Good _ _ _ _ h (dialog-Good n reads _ passwd _ h))
      | inr plain ↦ elim (Bool-cases (is_command "PASS" (strip line))) [
        | inl told ↦ rw (more, plain, told) (after_drain-Good _ _ _ _ h h)
        | inr noise ↦
            rw (more, plain, noise)
              (after_drain-Good _ _ _ _ h (dialog-Good n reads user passwd _ h))
      ]
    ]
  ]

  log_login-Good : (d : Dialog) → Good d.1 → Good (log_login c d).1
  unfolding log_login
  log_login-Good (raise f, s) h = h
  log_login-Good (ok (user, passwd), s) h = elim (Bool-cases (user == "" && passwd == "")) [
    | inl nothing ↦ rw nothing h
    | inr told ↦ rw told (log_about-Good "ftp" "login_attempt" _ s h)
  ]

  answer-Good : (text : String) (s : Session) → Good s → Good (answer c text s)
  unfolding answer
  answer-Good text s h = elim (Bool-cases (mentions "AUTH" text)) [
    | inl auth ↦ rw auth (log_about-Good "redis" "login_attempt" _ s h)
    | inr a ↦ elim (Bool-cases (mentions "PING" text)) [
      | inl ping ↦ rw (a, ping) h
      | inr p ↦ elim (Bool-cases (mentions "INFO" text)) [
        | inl info ↦ rw (a, p, info) h
        | inr i ↦ rw (a, p, i) (log_about-Good "redis" "command" _ s h)
      ]
    ]
  ]

  requests-Good : (n : ℕ) (reads : List Read) (s : Session) → Good s → Good (requests c n reads s).1
  unfolding requests
  requests-Good zero reads s h = h
  requests-Good (suc n) [] s h = h
  requests-Good (suc n) (silent ∷ reads) s h = h
  requests-Good (suc n) (broken f ∷ reads) s h = h
  requests-Good (suc n) (got text ∷ reads) s h = elim (Bool-cases (text == "")) [
    | inl over ↦ rw over h
    | inr more ↦ rw more (
        let k = answer-Good text s h in
        after_drain-Good _ _ _ _ k (requests-Good n reads (answer c text s) k))
  ]

  deny-Good :
      (denial : String) (r : Result Failure String) (s : Session)
      → Good s
      → Good (deny denial c r s).1
  unfolding deny
  deny-Good denial (raise f) s h = h
  deny-Good denial (ok login) s h =
      let k = log_about-Good "mysql" "login_attempt" _ s h in after_drain-Good _ _ _ _ k k

  run_handler-Good :
      (b : Bytes) (k : Handler) (reads : List Read) (s : Session)
      → Good s
      → Good (run_handler b k c reads s).1
  unfolding run_handler handle_http handle_mysql handle_ftp handle_redis
  run_handler-Good b http [] s h =
      let k = log_about-Good "http" _ _ s h in after_drain-Good _ _ _ _ k k
  run_handler-Good b http (got text ∷ reads) s h =
      let k = log_about-Good "http" _ _ s h in after_drain-Good _ _ _ _ k k
  run_handler-Good b http (silent ∷ reads) s h =
      let k = log_about-Good "http" _ _ s h in after_drain-Good _ _ _ _ k k
  run_handler-Good b http (broken f ∷ reads) s h = h
  run_handler-Good b mysql reads s h =
      let k = log_about-Good "mysql" "connect" _ s h in
      after_drain-Good _ _ _ _ k (deny-Good b.denial (received reads) _ k)
  run_handler-Good b ftp reads s h =
      let k = log_about-Good "ftp" "connect" _ s h in
      after_drain-Good _ _ _ _ k
        (log_login-Good (dialog c 4 reads "" "" _) (dialog-Good 4 reads "" "" _ k))
  run_handler-Good b redis reads s h =
      requests-Good 6 reads _ (log_about-Good "redis" "connect" _ s h)

  settle-Good : (run : Result Failure (Unit {0}) × Session) → Good run.1 → Good (settle c run)
  unfolding settle
  settle-Good (ok u, s) h = h
  settle-Good (raise reset, s) h = h
  settle-Good (raise broken_pipe, s) h = h
  settle-Good (raise (other text), s) h = log_error-Good text s h

  -- Whatever a client sends to any decoy and however the connection ends, each record that is logged is
  -- one that the pipeline's normalizer makes an event of, with the client's address and the port of the
  -- decoy and the whole record in `raw`, if the clock and the address are not empty texts.
  pub serve-Accepted :
      (b : Bytes) (k : Handler) (reads : List Read)
      → All (IsAccepted to_text fresh c) (serve b k c reads).logged
  unfolding serve
  serve-Accepted b k reads =
      settle-Good (run_handler b k c reads new_session) (run_handler-Good b k reads new_session tt)
