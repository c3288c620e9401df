-- ===== src/Enrich/Abusech/Listed.antt =====
-- The blocklist in memory and its copy on disk.
use getarp.Base.Exec.{Result, ok, raise}
use getarp.Base.{
  ◌-◌, String, Bool, Option, none, some, List, [], ◌∷◌, ltb, leb, take, ◌≡◌, inl, inr, refl,
  Bool-cases, Option-cases,
}
use getarp.Enrich.Abusech.{
  CacheFile, State, Call, ttl, load_cache, first_text, adopt, refresh, refreshed, enrich,
}

-- a restart reads the list back
abbrev pub IsMirrored : State → Type 0
IsMirrored s = (load_cache s.file).blacklist ≡ s.blacklist

abbrev MirroredRun : Result String State → Type 0
MirroredRun run = elim run [ ok s ↦ IsMirrored s | raise ex ↦ Unit ]

adopt-IsMirrored :
    (c : Call) (text : Option String) (s : State) → IsMirrored s → MirroredRun (adopt c text s)
unfolding adopt load_cache
adopt-IsMirrored c none s h = h
adopt-IsMirrored c (some text) s h = elim (Option-cases c.write_fault) [
  | inl fine ↦ rw (fine, adopt) refl
  | inr (ex, e) ↦ rw (e, adopt) tt
]

refresh-IsMirrored : (c : Call) (s : State) → IsMirrored s → MirroredRun (refresh c s)
unfolding refresh
refresh-IsMirrored c s h = elim (Bool-cases (ltb (c.entered - s.last_fetch) ttl)) [
  | inl young ↦ rw young h
  | inr old ↦ rw old (adopt-IsMirrored c (first_text (take 4 c.attempts)) s h)
]

refreshed-IsMirrored : (c : Call) (s : State) → IsMirrored s → MirroredRun (refreshed c s)
unfolding refreshed
refreshed-IsMirrored c s h = elim (Bool-cases (leb ttl (c.checked - s.last_fetch))) [
  | inl old ↦ rw old (refresh-IsMirrored c s h)
  | inr young ↦ rw young h
]

after-IsMirrored :
    (key : Bool) (c : Call) (s : State) (run : Result String State)
    → refreshed c s ≡ run
    → IsMirrored s
    → MirroredRun run
    → IsMirrored (enrich key c s).1
unfolding enrich
after-IsMirrored key c s (raise ex) e h m = rw e h
after-IsMirrored key c s (ok s') e h m = rw e m

enrich-IsMirrored :
    (key : Bool) (c : Call) (s : State) → IsMirrored s → IsMirrored (enrich key c s).1
enrich-IsMirrored key c s h =
    after-IsMirrored key c s (refreshed c s) refl h (refreshed-IsMirrored c s h)

-- calls one after the other
unfoldable pub run : Bool → List Call → State → State
run key [] s = s
run key (c ∷ cs) s = run key cs (enrich key c s).1

run-IsMirrored :
    (key : Bool) (cs : List Call) (s : State) → IsMirrored s → IsMirrored (run key cs s)
unfolding run
run-IsMirrored key [] s h = h
run-IsMirrored key (c ∷ cs) s h = run-IsMirrored key cs _ (enrich-IsMirrored key c s h)

load_again : (file : Option CacheFile) → IsMirrored (load_cache file)
unfolding load_cache
load_again none = refl
load_again (some f) = refl

-- After a start and any calls, failed downloads and a file that cannot be opened among them, a restart
-- reads the blocklist back from disk as it is in memory.
pub restart-run :
    (key : Bool) (cs : List Call) (file : Option CacheFile)
    → let s = run key cs (load_cache file) in (load_cache s.file).blacklist ≡ s.blacklist
restart-run key cs file = run-IsMirrored key cs (load_cache file) (load_again file)
