-- ===== src/Agent/Tools/Exposed.antt =====
-- Which tools are registered and exposed, backend/bothesis/agent/tools/core/registry.py, router.py.
use mathlib.Core.Path.{subst}
use bo_thesis.Base.Dict.{Dict, get, put, get-put, get-put_same, put-fresh}
use bo_thesis.Base.Result.{Result, ok, require, ◌>>◌, require-eq-ok}
use bo_thesis.Base.Keys.{keys, is_found, IsDict, put-IsDict, get-Member}
use bo_thesis.Base.{
  ◌≡◌, ◌≢◌, ◌↔◌, inl, inr, refl, sym, ap, ◌∙◌, Bool, true, false, not, ◌&&◌, ◌||◌, Option, none,
  some, List, [], ◌∷◌, Str, strip, is_empty, All, All-append, list_beq, list_beq_iff, keep, Member,
  contains→Member, Member→contains, Member-keep, Member-keep_cases, Member-map, Member-map_cases,
  nat_eq, list_eq, Bool-cases, if◌then◌else◌, arith,
}
use bo_thesis.Agent.Tools.Registry.{
  Tool, ToolRegistry, RegistrationError, empty_name, already_registered, register, is_allowed,
  is_direct, can_expose, router_names, is_exposed,
}

-- A tool stands under its stripped name, which is not empty.
abbrev pub IsNamed : Str × Tool → Type 0
IsNamed (name, tool) = (name ≡ strip tool.name) × (name ≢ [])

-- A registry names every tool once.
abbrev pub IsRegistry : ToolRegistry → Type 0
IsRegistry tools = IsDict tools × All IsNamed tools

get→Member : {V : Type 0} (d : Dict Str V) (k : Str) (v : V) → get d k ≡ some v → Member (k, v) d
unfolding get
get→Member [] k v h = cc
get→Member ((i, w) ∷ d) k v h = elim (Bool-cases (list_beq i k)) [
  | inl same ↦
      let found : some w ≡ some v = ap (λ b. if b then some w else get d k) (sym same) ∙ h in
      let value : w ≡ v = cc found in
      let key = (list_beq_iff i k).0 same in inl (λ j. (sym key j, sym value j))
  | inr apart ↦ inr (get→Member d k v (ap (λ b. if b then some w else get d k) (sym apart) ∙ h))
]

All-put :
    {V : Type 0} (P : Str × V → Type 0) (d : Dict Str V) (k : Str) (v : V)
    → get d k ≡ none
    → P (k, v)
    → All P d
    → All P (put d k v)
All-put P d k v fresh p h =
    subst (All P) (sym (put-fresh d k v fresh)) (All-append P d ((k, v) ∷ []) h (p, tt))

missing : (found : Option Tool) → not (is_found found) ≡ true → found ≡ none
missing none h = refl
missing (some tool) h = cc

-- What a registration leaves: the tool, and those that were there.
abbrev pub IsRegistered : ToolRegistry → Tool → ToolRegistry → Type 0
IsRegistered tools tool after =
    IsRegistry after
    × (get after (strip tool.name) ≡ some tool)
    × (get tools (strip tool.name) ≡ none)
    × ((other : Str)
        → get after other
          ≡ (if list_beq (strip tool.name) other then some tool else get tools other))

-- A registration that succeeds adds the tool under its stripped name, which is new and not empty,
-- and leaves every other tool in place.
pub register-IsRegistered :
    (tools : ToolRegistry) (tool : Tool) {after : ToolRegistry}
    → IsRegistry tools
    → register tools tool ≡ ok after
    → IsRegistered tools tool after
unfolding register
register-IsRegistered tools tool {after} (unique, named) h =
    let name = strip tool.name in
    let stored : Result RegistrationError ToolRegistry = ok (put tools name tool) in
    let (given, checked) =
      require-eq-ok (not (is_empty name)) empty_name
        (require (not (is_found (get tools name))) (already_registered name) >> stored) h in
    let (new, made) =
      require-eq-ok (not (is_found (get tools name))) (already_registered name) stored checked in
    let gone = missing (get tools name) new in
    let e : put tools name tool ≡ after = cc made in
    let nonempty : name ≢ [] = λ nil. cc (given, ap is_empty nil) in
    subst (IsRegistered tools tool) e (
      (
        put-IsDict tools name tool unique,
        All-put IsNamed tools name tool gone (refl, nonempty) named,
      ),
      get-put_same tools name tool,
      gone,
      λ other. get-put tools name other tool,
    )

-- The conditions under which a name is exposed.
abbrev pub Exposes : ToolRegistry → Option (List Str) → (sandbox_available : Bool) → Str → Type 0
Exposes tools allowed sandbox_available name =
    (tool : Tool) × (get tools name ≡ some tool)
    × (is_allowed allowed name ≡ true)
    × (is_direct tool.exposure ≡ true)
    × ((sandbox_available || not tool.requires_sandbox) ≡ true)

can_expose-parts : (a b c : Bool) → (a && (b && c)) ≡ true → (a ≡ true) × (b ≡ true) × (c ≡ true)
can_expose-parts true true c h = (refl, refl, h)
can_expose-parts true false c h = cc
can_expose-parts false b c h = cc

parts-can_expose : (a b c : Bool) → a ≡ true → b ≡ true → c ≡ true → (a && (b && c)) ≡ true
parts-can_expose a b c h k l = ground arith

-- The router exposes a name exactly if a tool is registered under it that may be used in the step:
-- allowed, exposed to the model directly, and not in need of a sandbox that is missing.
pub is_exposed_iff :
    (tools : ToolRegistry) (allowed : Option (List Str)) (sandbox_available : Bool) (name : Str)
    → IsRegistry tools
    → (is_exposed (router_names tools allowed sandbox_available) name ≡ true)
      ↔ Exposes tools allowed sandbox_available name
unfolding is_exposed router_names
is_exposed_iff tools allowed sandbox_available name (unique, named) =
    let test = λ (p : Str × Tool). can_expose allowed sandbox_available p.0 p.1 in
    (
      λ h.
          let (p, m, same) =
            Member-map_cases name (λ (p : Str × Tool). p.0) (keep test tools)
              (contains→Member (keys (keep test tools)) name h) in
          let (there, passed) = Member-keep_cases p test tools m in
          let found = ap (get tools) same ∙ get-Member tools p.0 p.1 unique there in
          let (a, d, s) = can_expose-parts _ _ _ passed in
          (p.1, found, ap (is_allowed allowed) same ∙ a, d, s),
      λ (tool, found, a, d, s). Member→contains (keys (keep test tools)) name (
          Member-map (name, tool) (λ (p : Str × Tool). p.0) (keep test tools)
            (Member-keep (name, tool) test tools (get→Member tools name tool found)
              (parts-can_expose _ _ _ a d s))),
    )
