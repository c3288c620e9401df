-- ===== src/Enrich/Feeds/Replaces.antt =====
-- `_store` against one statement that replaces the rows of a source.
use getarp.Base.Exec.{Result, ok, raise}
use getarp.Base.{
  ℕ, suc, String, Option, none, some, List, [], ◌∷◌, ◌++◌, length, leb, ◌≡◌, ◌⊎◌, inl, inr, refl,
  sym, ap, append_nil, append_assoc, Bool-cases, Option-cases,
}
use getarp.Retry.{Ex}
use getarp.Enrich.Feeds.{
  FeedRow, Indicator, Codec, Faults, indicator_of, add_all, statement, fill, without, transaction,
  settled, store,
}

-- the rows that have an address, all at once
unfoldable pub stored_rows : Codec → String → List FeedRow → List Indicator
stored_rows c source [] = []
stored_rows c source (r ∷ rs) =
    let rest = stored_rows c source rs in
    elim (indicator_of c source r) [ none ↦ rest | some i ↦ i ∷ rest ]

-- the table with the source's rows deleted and the new rows inserted, in one statement
unfoldable pub replaced : Codec → String → List FeedRow → List Indicator → List Indicator
replaced c source rows table = add_all (stored_rows c source rows) (without source table)

add_all-append :
    (is js table : List Indicator) → add_all (is ++ js) table ≡ add_all js (add_all is table)
unfolding add_all
add_all-append [] js table = refl
add_all-append (i ∷ is) js table = add_all-append is js _

-- the exception is the failure of one of the calls to Postgres
abbrev pub Fails : Faults → Ex → Type 0
Fails f ex = (f.acquire ≡ some ex) ⊎ (f.commit ≡ some ex) ⊎ ((k : ℕ) × (f.statement k ≡ some ex))

-- a run in which a call fails, or that ends with the table `t`
abbrev EndsWith : Faults → Result Ex (List Indicator) → List Indicator → Type 0
EndsWith f run t = ((ex : Ex) × (run ≡ raise ex) × Fails f ex) ⊎ (run ≡ ok t)

statement-EndsWith :
    (f : Faults) (k : ℕ) (after t : List Indicator) → after ≡ t → EndsWith f (statement f k after) t
statement-EndsWith f k after t e = elim (Option-cases (f.statement k)) [
  | inl calm ↦ rw (calm, statement) (inr (ap (λ u. ok u) e))
  | inr (ex, fails) ↦ rw (fails, statement) (inl (ex, refl, inr (inr (k, fails))))
]

fill-EndsWith :
    (c : Codec) (chunk : ℕ) (f : Faults) (source : String) (rows : List FeedRow)
    (batch : List Indicator) (k : ℕ) (table : List Indicator)
    → EndsWith f
        (fill c chunk f source rows batch k table)
        (add_all (batch ++ stored_rows c source rows) table)
unfolding fill stored_rows add_all
fill-EndsWith c chunk f source [] [] k table = inr refl
fill-EndsWith c chunk f source [] (i ∷ is) k table =
    statement-EndsWith f k _ _ (ap (λ l. add_all l table) (sym (append_nil (i ∷ is))))
fill-EndsWith c chunk f source (r ∷ rs) batch k table =
    elim (Option-cases (indicator_of c source r)) [
      | inl bad ↦ rw (bad, fill, stored_rows) (fill-EndsWith c chunk f source rs batch k table)
      | inr (i, good) ↦
          let rest = stored_rows c source rs in
          rw (good, sym (append_assoc batch (i ∷ []) rest), fill, stored_rows)
            (elim (Bool-cases (leb chunk (length (batch ++ i ∷ [])))) [
              | inl full ↦ rw full (elim (Option-cases (f.statement k)) [
                | inl calm ↦
                    rw (calm, statement, add_all-append (batch ++ i ∷ []) rest table)
                      (fill-EndsWith c chunk f source rs [] (suc k)
                        (add_all (batch ++ i ∷ []) table))
                | inr (ex, fails) ↦ rw (fails, statement) (inl (ex, refl, inr (inr (k, fails))))
              ])
              | inr room ↦ rw room (fill-EndsWith c chunk f source rs (batch ++ i ∷ []) k table)
            ])
    ]

commit-EndsWith :
    (f : Faults) (t : List Indicator) (o : Option Ex)
    → f.commit ≡ o
    → EndsWith f (elim o [ none ↦ ok t | some ex ↦ raise ex ]) t
commit-EndsWith f t none e = inr refl
commit-EndsWith f t (some ex) e = inl (ex, refl, inr (inl e))

transaction-EndsWith :
    (c : Codec) (chunk : ℕ) (f : Faults) (source : String) (rows : List FeedRow)
    (table : List Indicator)
    → EndsWith f (transaction c chunk f source rows table) (replaced c source rows table)
unfolding transaction replaced
transaction-EndsWith c chunk f source rows table = elim (Option-cases (f.statement 0)) [
  | inr (ex, fails) ↦ rw (fails, statement) (inl (ex, refl, inr (inr (0, fails))))
  | inl calm ↦
      rw (calm, statement)
        (elim (fill-EndsWith c chunk f source rows [] 1 (without source table)) [
          | inl (ex, e, why) ↦ rw e (inl (ex, refl, why))
          | inr e ↦ rw e (commit-EndsWith f _ f.commit refl)
        ])
]

acquired-EndsWith :
    (f : Faults) (run : Result Ex (List Indicator)) (t : List Indicator) (o : Option Ex)
    → f.acquire ≡ o
    → EndsWith f run t
    → EndsWith f (elim o [ some ex ↦ raise ex | none ↦ run ]) t
acquired-EndsWith f run t none e h = h
acquired-EndsWith f run t (some ex) e h = inl (ex, refl, inl e)

settled_run :
    (f : Faults) (run : Result Ex (List Indicator)) (t table : List Indicator)
    → EndsWith f run t
    → ((ex : Ex) × (settled table run ≡ (raise ex, table)) × Fails f ex)
      ⊎ (settled table run ≡ (ok tt, t))
settled_run f run t table (inl (ex, e, why)) = inl (ex, ap (settled table) e, why)
settled_run f run t table (inr e) = inr (ap (settled table) e)

-- Whatever the batch size, the source's rows are replaced by all the rows of the feed that have an
-- address, as one statement would; or a call to Postgres failed, its exception is raised, and the table
-- is what it was. So a run in which no call fails replaces the rows.
pub store_atomic :
    (c : Codec) (chunk : ℕ) (f : Faults) (source : String) (rows : List FeedRow)
    (table : List Indicator)
    → ((ex : Ex) × (store c chunk f source rows table ≡ (raise ex, table)) × Fails f ex)
      ⊎ (store c chunk f source rows table ≡ (ok tt, replaced c source rows table))
unfolding store
store_atomic c chunk f source rows table =
    settled_run f _ (replaced c source rows table) table
      (acquired-EndsWith f _ _ f.acquire refl (transaction-EndsWith c chunk f source rows table))
