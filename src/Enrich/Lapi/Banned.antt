-- ===== src/Enrich/Lapi/Banned.antt =====
-- Who is listed, and for what.
use getarp.Base.{
  or_assoc, or_false, String, ◌==◌, eq_iff, str_refl, Bool, true, false, ◌||◌, ◌&&◌, some, List, [],
  ◌∷◌, elem, elem-append, any, is_some, or_else, ◌≡◌, inl, inr, refl, ap, ◌∙◌, arith, Bool-cases,
  sym,
}
use getarp.Base.Dict.{Dict, get, has, get-put}
use getarp.Enrich.Lapi.{
  Ban, Entry, is_counted, new_entry, append_new, extend, add_ban, add_bans, lookup_lapi,
}

-- a decision that counts, about this address
abbrev pub is_about : String → Ban → Bool
is_about ip b = is_counted b.kind && or_else b.value "" == ip

-- and for this scenario
abbrev pub is_for : String → String → Ban → Bool
is_for ip scenario b = is_about ip b && b.scenario == scenario

abbrev pub scenarios_of : Dict Entry → String → List String
scenarios_of ds ip = (or_else (get ds ip) new_entry).scenarios

elem-append_new :
    (sc s : String) (ss : List String)
    → (sc == "") ≡ false
    → elem sc (append_new s ss) ≡ (elem sc ss || s == sc)
elem-append_new sc s ss real = elim (Bool-cases (s == sc)) [
  | inl same ↦
      rw ((eq_iff s sc).0 same, real)
        (elim (Bool-cases (elem sc ss)) [
          | inl old ↦ rw old (ground (arith, str_refl sc))
          | inr new ↦ rw new (ground (arith, elem-append sc ss (sc ∷ []), str_refl sc))
        ])
  | inr other ↦ ground (arith, elem-append sc ss (s ∷ []))
]

has-add_ban :
    (ds : Dict Entry) (b : Ban) (ip : String)
    → (ip == "") ≡ false
    → has (add_ban ds b) ip ≡ (has ds ip || is_about ip b)
unfolding add_ban
has-add_ban ds b ip real =
    let v = or_else b.value "" in
    let e = extend b (or_else (get ds v) new_entry) in
    ground (arith, get-put v e ds ip, eq_iff v ip, eq_iff ip v)

other-add_ban :
    (ds : Dict Entry) (b : Ban) (ip : String)
    → (ip == "") ≡ false
    → is_about ip b ≡ false
    → get (add_ban ds b) ip ≡ get ds ip
unfolding add_ban
other-add_ban ds b ip real other =
    let v = or_else b.value "" in
    let e = extend b (or_else (get ds v) new_entry) in
    ground (arith, get-put v e ds ip, eq_iff v ip, eq_iff ip v)

-- the entry that a decision about the address writes
here-add_ban :
    (ds : Dict Entry) (b : Ban) (ip : String)
    → (ip == "") ≡ false
    → is_counted b.kind ≡ true
    → or_else b.value "" ≡ ip
    → get (add_ban ds b) ip ≡ some (extend b (or_else (get ds ip) new_entry))
unfolding add_ban
here-add_ban ds b ip real counts same =
    let e = extend b (or_else (get ds ip) new_entry) in
    rw (same, real, counts) (get-put ip e ds ip ∙ rw (str_refl ip) refl)

scenarios-add_ban :
    (ds : Dict Entry) (b : Ban) (ip sc : String)
    → (ip == "") ≡ false
    → (sc == "") ≡ false
    → elem sc (scenarios_of (add_ban ds b) ip) ≡ (elem sc (scenarios_of ds ip) || is_for ip sc b)
scenarios-add_ban ds b ip sc real named =
    let v = or_else b.value "" in
    let old = or_else (get ds ip) new_entry in
    elim (Bool-cases (is_about ip b)) [
      | inl about ↦
          let counts : is_counted b.kind ≡ true = ground arith in
          let same : (v == ip) ≡ true = ground arith in
          ap (λ o. elem sc (or_else o new_entry).scenarios)
            (here-add_ban ds b ip real counts ((eq_iff v ip).0 same))
          ∙ elem-append_new sc b.scenario old.scenarios named
          ∙ ap (λ a. elem sc old.scenarios || (a && b.scenario == sc)) (sym about)
      | inr other ↦
          ap (λ o. elem sc (or_else o new_entry).scenarios) (other-add_ban ds b ip real other)
          ∙ or_false (elem sc old.scenarios)
          ∙ ap (λ a. elem sc old.scenarios || (a && b.scenario == sc)) (sym other)
    ]

has-add_bans :
    (ds : Dict Entry) (bs : List Ban) (ip : String)
    → (ip == "") ≡ false
    → has (add_bans ds bs) ip ≡ (has ds ip || any (is_about ip) bs)
unfolding add_bans
has-add_bans ds [] ip real = or_false (has ds ip)
has-add_bans ds (b ∷ bs) ip real =
    has-add_bans (add_ban ds b) bs ip real
    ∙ ap (λ a. a || any (is_about ip) bs) (has-add_ban ds b ip real)
    ∙ or_assoc (has ds ip) (is_about ip b) (any (is_about ip) bs)

scenarios-add_bans :
    (ds : Dict Entry) (bs : List Ban) (ip sc : String)
    → (ip == "") ≡ false
    → (sc == "") ≡ false
    → elem sc (scenarios_of (add_bans ds bs) ip)
      ≡ (elem sc (scenarios_of ds ip) || any (is_for ip sc) bs)
unfolding add_bans
scenarios-add_bans ds [] ip sc real named = or_false (elem sc (scenarios_of ds ip))
scenarios-add_bans ds (b ∷ bs) ip sc real named =
    scenarios-add_bans (add_ban ds b) bs ip sc real named
    ∙ ap (λ a. a || any (is_for ip sc) bs) (scenarios-add_ban ds b ip sc real named)
    ∙ or_assoc (elem sc (scenarios_of ds ip)) (is_for ip sc b) (any (is_for ip sc) bs)

is_some-lookup_lapi : (ds : Dict Entry) (ip : String) → is_some (lookup_lapi ds ip) ≡ has ds ip
unfolding lookup_lapi
is_some-lookup_lapi ds ip = ground arith

-- An address is found exactly if one of the decisions that were downloaded is about it and is a ban, a
-- captcha or of no type; and a scenario is kept for it exactly if such a decision names it.
pub lookup-bans :
    (bs : List Ban) (ip sc : String)
    → (ip == "") ≡ false
    → (sc == "") ≡ false
    → (is_some (lookup_lapi (add_bans [] bs) ip) ≡ any (is_about ip) bs)
      × (elem sc (scenarios_of (add_bans [] bs) ip) ≡ any (is_for ip sc) bs)
unfolding get
lookup-bans bs ip sc real named = (
  is_some-lookup_lapi (add_bans [] bs) ip ∙ has-add_bans [] bs ip real,
  scenarios-add_bans [] bs ip sc real named,
)
