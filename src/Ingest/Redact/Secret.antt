-- ===== src/Ingest/Redact/Secret.antt =====
-- What the stored payload keeps of a password.
use getarp.Base.Exec.{ok}
use getarp.Base.{String, text_length, ◌≡◌, refl, sym, ap, ◌∙◌, arith, str_refl}
use getarp.Json.{Value, Fields, null, str, obj, end, field, put, find-put}
use getarp.Ingest.Redact.{hint, redact_password, redact_at, redact_raw}

put-put : (fs : Fields) (k : String) (v w : Value) → put (put fs k v) k w ≡ put fs k w
unfolding put
put-put end k v w = rw (str_refl k)
put-put (field j u fs) k v w = ground (arith, put-put fs k v w)

redact_put :
    (fs : Fields) (v w : Value)
    → redact_password v ≡ ok w
    → redact_raw (obj (put fs "password" v)) ≡ ok (obj (put fs "password" w))
unfolding redact_raw
redact_put fs v w h = rw (find-put fs "password" "password" v, redact_at, h, put-put)

same_hint :
    (p q : String)
    → text_length p ≡ text_length q
    → redact_password (str p) ≡ redact_password (str q)
unfolding redact_password
same_hint String.[] String.[] h = refl
same_hint String.[] (String.◌∷◌ c q) h = absurd (omega arith)
same_hint (String.◌∷◌ c p) String.[] h = absurd (omega arith)
same_hint (String.◌∷◌ c p) (String.◌∷◌ d q) h = ap (λ n. ok (str (hint n))) h

redacts : (p : String) → (w : Value) × (redact_password (str p) ≡ ok w)
unfolding redact_password
redacts String.[] = (null, refl)
redacts (String.◌∷◌ c p) = (str (hint (text_length (String.◌∷◌ c p))), refl)

-- Two passwords of the same length leave the same trace, whatever else the record holds: the stored
-- payload does not depend on the password's characters.
pub redact_raw_hides :
    (fs : Fields) (p q : String)
    → text_length p ≡ text_length q
    → redact_raw (obj (put fs "password" (str p))) ≡ redact_raw (obj (put fs "password" (str q)))
redact_raw_hides fs p q h =
    let (w, e) = redacts p in
    redact_put fs (str p) w e ∙ sym (redact_put fs (str q) w (sym (same_hint p q h) ∙ e))
