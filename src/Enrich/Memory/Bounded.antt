-- ===== src/Enrich/Memory/Bounded.antt =====
-- The bound of the cache.
use getarp.Base.{
  ℕ, ◌+◌, ◌≤◌, String, ◌==◌, true, false, Option, none, some, [], ◌∷◌, ltb, leb, length,
  if◌then◌else◌, ◌≡◌, inl, inr, refl, sym, ◌∙◌, ap, arith, Bool-cases, str_refl, leb→lt,
}
use getarp.Base.Dict.{Dict, get, put, has, get-put, get-remove, length-put, length-remove-lt}
use getarp.Enrich.Record.{Enrichment}
use getarp.Enrich.Memory.{Memory, oldest, old_key, without, cache_put}

-- the two dicts have the same keys, at most `max` of them
pub record IsCache (max : ℕ) (s : Memory) : Type 0 where
  pub bounded : length s.cache ≤ max
  pub same_keys : (k : String) → has s.cache k ≡ has s.cache_ts k

has-oldest :
    (d : Dict ℕ) (k : String) (t : ℕ) (e : Dict ℕ)
    → ((j : String) → has e j ≡ true → has d j ≡ true)
    → has d k ≡ true
    → has d (oldest k t e) ≡ true
unfolding oldest get
has-oldest d k t [] sub h = h
has-oldest d k t ((j, u) ∷ e) sub h =
    let sub' : (i : String) → has e i ≡ true → has d i ≡ true = λ i g. sub i (ground arith) in
    elim (Bool-cases (ltb u t)) [
      | inl q ↦ rw q (has-oldest d j u e sub' (sub j (ground (arith, str_refl j))))
      | inr q ↦ rw q (has-oldest d k t e sub' h)
    ]

has-put :
    {V : Type 0} (d : Dict V) (k : String) (v : V) (j : String)
    → has (put d k v) j ≡ (if j == k then true else has d j)
has-put d k v j = ground (arith, get-put k v d j)

has-without :
    {V W : Type 0} (o : Option String) (d : Dict V) (e : Dict W) (j : String)
    → has d j ≡ has e j
    → has (without o d) j ≡ has (without o e) j
has-without none d e j h = h
has-without (some k) d e j h = ground (arith, get-remove k d j, get-remove k e j)

-- a dict that has no key is empty
no_keys : {V : Type 0} (d : Dict V) → ((k : String) → has d k ≡ false) → length d ≡ 0
unfolding get
no_keys [] h = refl
no_keys ((k, v) ∷ d) h = absurd (ground (arith, h k, str_refl k))

room :
    (max : ℕ) (c : Dict Enrichment) (ts : Dict ℕ)
    → 1 ≤ max
    → length c ≤ max
    → ((k : String) → has c k ≡ has ts k)
    → length (without (old_key max c ts) c) + 1 ≤ max
unfolding old_key get
room max c [] pos b h = omega (arith, pos, no_keys c h)
room max c ((k, t) ∷ d) pos b h = elim (Bool-cases (leb max (length c))) [
  | inl full ↦
      let o = oldest k t d in
      let here : has ((k, t) ∷ d) k ≡ true = ground (arith, str_refl k) in
      let there = has-oldest ((k, t) ∷ d) k t d (λ j g. ground arith) here in
      rw full (omega (arith, b, length-remove-lt c o (h o ∙ there)))
  | inr free ↦ rw free (omega (arith, leb→lt max (length c) free))
]

pub cache_put-IsCache :
    (max : ℕ) (ip : String) (e : Enrichment) (now : ℕ) (s : Memory)
    → 1 ≤ max
    → IsCache max s
    → IsCache max (cache_put max ip e now s)
unfolding cache_put
cache_put-IsCache max ip e now s pos h =
    let old = old_key max s.cache s.cache_ts in
    let c = without old s.cache in
    let ts = without old s.cache_ts in
    record {
      bounded =
          ground (arith, length-put c ip e, room max s.cache s.cache_ts pos h.bounded h.same_keys);
      same_keys = λ k.
          has-put c ip e k
          ∙ ap (λ b. if k == ip then true else b)
              (has-without old s.cache s.cache_ts k (h.same_keys k))
          ∙ sym (has-put ts ip now k);
    }
