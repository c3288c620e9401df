-- ===== src/Enrich/Crowdsec/Bans.antt =====
-- The decisions of the local engine about an address, and the answer of `CrowdSecProvider` about it.
use getarp.Base.Exec.{Result, ok, raise}
use getarp.Base.{
  not, ℕ, ◌*◌, ◌&&◌, min, any, elem, String, ◌==◌, Bool, true, false, List, [], ◌∷◌, ltb, leb,
  or_else, if◌then◌else◌, ◌≡◌,
}
use getarp.Base.Dict.{Dict, get}
use getarp.Enrich.Record.{Enrichment}
use getarp.Enrich.Http.{Reply, unreachable, response}
use getarp.Enrich.Crowdsec.{Smoke, Decision}

-- the scenarios of the decisions about an address
unfoldable pub scenarios_for : String → List Decision → List String
scenarios_for ip [] = []
scenarios_for ip (d ∷ ds) =
    let rest = scenarios_for ip ds in if or_else d.value "" == ip then d.scenario ∷ rest else rest

abbrev scenarios_at : Dict (List String) → String → List String
scenarios_at d ip = or_else (get d ip) []

-- a decision of the engine itself about this address
abbrev pub is_ban : String → Decision → Bool
is_ban ip d = not (or_else d.origin "" == "CAPI") && or_else d.value "" == ip

abbrev has_one : List String → Bool
has_one [] = false
has_one (s ∷ ss) = true

abbrev body_total : Result String Smoke → ℕ
body_total (raise ex) = 0
body_total (ok d) = d.total

-- the score that the CTI gives, 0 where it is not asked or gives none
abbrev pub cti_total : Bool → Reply Smoke → ℕ
cti_total false r = 0
cti_total true (unreachable ex) = 0
cti_total true (response r) = if leb 200 r.status && ltb r.status 300 then body_total r.body else 0

-- the answer about an address that the engine bans
pub record IsBanned (ip : String) (ds : List Decision) (e : Enrichment) : Type 0 where
  pub attacker : e.is_known_attacker ≡ true
  pub reputation : e.reputation ≡ "malicious"
  pub confidence : e.confidence ≡ 90
  pub scenarios :
      (scenario : String)
      → (scenario == "") ≡ false
      → elem scenario e.categories ≡ any (λ d. is_ban ip d && d.scenario == scenario) ds

-- an answer that goes by a score of the CTI
pub record IsScored (total : ℕ) (e : Enrichment) : Type 0 where
  pub attacker : e.is_known_attacker ≡ leb 3 total
  pub confidence : e.confidence ≡ min (total * 20) 100
