-- ===== src/Agent/Orchestrator/Best.antt =====
-- The merge of evidence into a turn, orchestrator.py.
use mathlib.Core.Path.{subst}
use Prim.{absurd}
use bo_thesis.Base.Dict.{Dict, get, put, get-put}
use bo_thesis.Base.Json.{Json}
use bo_thesis.Base.Sort.{WeakOrder}
use bo_thesis.Base.{
  ℕ, ◌≡◌, inl, inr, refl, sym, ap, ◌∙◌, Bool, true, false, Option, none, some, List, [], ◌∷◌,
  gather, Member, Str, arith, Bool-cases, Option-cases, list_beq, list_beq_iff, beq_refl, list_eq,
  nat_eq, if◌then◌else◌,
}
use bo_thesis.Knowledge.{Evidence}
use bo_thesis.Agent.Orchestrator.{
  ToolCall, ToolObservation, Handled, ToolRouter, TurnContext, is_lower, is_better, keep_evidence,
  check_calls, observations_from, execute,
}

module _ {S : Type 0} (order : WeakOrder S) where
  abbrev pub lower : Option S → Option S → Bool
  lower a b = is_lower order a b

  lower_asym : (a b : Option S) → lower a b ≡ true → lower b a ≡ false
  lower_asym none none h = refl
  lower_asym none (some b) h = refl
  lower_asym (some a) none h = cc
  lower_asym (some a) (some b) h = order.lt_asym a b h

  not-lower_trans : (a b c : Option S) → lower a b ≡ false → lower b c ≡ false → lower a c ≡ false
  not-lower_trans a b none h k = refl
  not-lower_trans a none (some c) h k = cc
  not-lower_trans none (some b) (some c) h k = cc
  not-lower_trans (some a) (some b) (some c) h k = order.not-lt_trans a b c h k

  lower_irrefl : (a : Option S) → lower a a ≡ false
  lower_irrefl a = elim (Bool-cases (lower a a)) [
    | inl below ↦ lower_asym a a below
    | inr not_below ↦ not_below
  ]

  -- Evidence is held under the id, with a score that is not lower.
  abbrev pub HoldsBest : Dict Str (Evidence S) → Str → Evidence S → Type 0
  HoldsBest d id e =
      (held : Evidence S) × (get d id ≡ some held)
      × (lower held.relevance_score e.relevance_score ≡ false)

  abbrev kept : Dict Str (Evidence S) → Evidence S → Dict Str (Evidence S)
  kept d source = if is_better order (get d source.id) source then put d source.id source else d

  kept-HoldsBest :
      (d : Dict Str (Evidence S)) (source : Evidence S) (id : Str) (e : Evidence S)
      → HoldsBest d id e
      → HoldsBest (kept d source) id e
  kept-HoldsBest d source id e (held, found, best) =
      elim (Bool-cases (is_better order (get d source.id) source)) [
        | inr worse ↦ rw worse (held, found, best)
        | inl better ↦ rw better (elim (Bool-cases (list_beq source.id id)) [
          | inr other ↦ (held, get-put d source.id id source ∙ ground (arith, other, found), best)
          | inl same ↦
              let one = (list_beq_iff source.id id).0 same in
              let above =
                ap (λ o. is_better order o source) (sym (ap (get d) one ∙ found)) ∙ better in
              (
                source,
                get-put d source.id id source ∙ ground (arith, same),
                not-lower_trans source.relevance_score held.relevance_score e.relevance_score
                    (lower_asym held.relevance_score source.relevance_score above) best,
              )
        ])
      ]

  kept-HoldsBest_new :
      (d : Dict Str (Evidence S)) (source : Evidence S) → HoldsBest (kept d source) source.id source
  kept-HoldsBest_new d source = elim (Bool-cases (is_better order (get d source.id) source)) [
    | inl better ↦ rw better (
      source,
      get-put d source.id source.id source ∙ ground (arith, beq_refl source.id),
      lower_irrefl source.relevance_score,
    )
    | inr worse ↦ rw worse (elim (Option-cases (get d source.id)) [
      | inl missing ↦ absurd (missing_better source (get d source.id) missing worse)
      | inr (held, found) ↦ (held, found, ap (λ o. is_better order o source) (sym found) ∙ worse)
    ])
  ]
    where
      missing_better :
          (source : Evidence S) (o : Option (Evidence S))
          → o ≡ none
          → is_better order o source ≡ false
          → ⊥
      missing_better source none h k = cc
      missing_better source (some e) h k = cc

  keep_evidence-HoldsBest :
      (d : Dict Str (Evidence S)) (sources : List (Evidence S)) (id : Str) (e : Evidence S)
      → HoldsBest d id e
      → HoldsBest (keep_evidence order d sources) id e
  unfolding keep_evidence
  keep_evidence-HoldsBest d [] id e h = h
  keep_evidence-HoldsBest d (s ∷ sources) id e h =
      keep_evidence-HoldsBest (kept d s) sources id e (kept-HoldsBest d s id e h)

  keep_evidence-HoldsBest_new :
      (d : Dict Str (Evidence S)) (sources : List (Evidence S)) (e : Evidence S)
      → Member e sources
      → HoldsBest (keep_evidence order d sources) e.id e
  unfolding keep_evidence
  keep_evidence-HoldsBest_new d [] e m = absurd m
  keep_evidence-HoldsBest_new d (s ∷ sources) e (inl same) =
      subst (λ x. HoldsBest (keep_evidence order (kept d s) sources) x.id x) (sym same)
        (keep_evidence-HoldsBest (kept d s) sources s.id s (kept-HoldsBest_new d s))
  keep_evidence-HoldsBest_new d (s ∷ sources) e (inr m) =
      keep_evidence-HoldsBest_new (kept d s) sources e m

-- Of what was held before and of what the sources bring, the table holds the best.
pub record KeepsBest {S : Type 0} (order : WeakOrder S) (before after : Dict Str (Evidence S))
    (sources : List (Evidence S)) : Type 0 where
  pub kept_before :
      (id : Str) (e : Evidence S) → get before id ≡ some e → HoldsBest order after id e
  pub added : (e : Evidence S) → Member e sources → HoldsBest order after e.id e

-- After a batch, whatever the tools answer, the turn holds evidence under every id that it held and
-- under every id that a result brought, with a score that is not lower than any of these had.
pub execute-KeepsBest :
    {S : Type 0} (order : WeakOrder S) (limit : ℕ) (router : ToolRouter)
    (handle : (index : ℕ) → ToolCall → Json → Handled S) (remaining : ℕ) (turn : TurnContext S)
    (calls : List ToolCall)
    → KeepsBest order turn.evidence
        (execute order limit router handle remaining turn calls).0.evidence
        (gather
          (λ (o : ToolObservation S). o.result.evidence)
          (observations_from handle 0 calls
            (check_calls router turn.executed_tool_signatures 0 remaining calls).0))
unfolding execute
execute-KeepsBest order limit router handle remaining turn calls =
    let sources =
      gather (λ (o : ToolObservation _). o.result.evidence)
        (observations_from handle 0 calls
          (check_calls router turn.executed_tool_signatures 0 remaining calls).0) in
    record {
      kept_before = λ id e found.
          keep_evidence-HoldsBest order turn.evidence sources id e
            (e, found, lower_irrefl order e.relevance_score);
      added = λ e m. keep_evidence-HoldsBest_new order turn.evidence sources e m;
    }
