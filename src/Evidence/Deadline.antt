-- ===== src/Evidence/Deadline.antt =====
-- The classification of the evidence of a settlement.
use myne.Js.{number, Value, safe_integer}
use myne.Schedule.{settlement_confirmed_within_result_window}
use myne.Js.Numbers.{safe_integer-number}
use myne.Js.Pattern.{is_digits}
use myne.Base.{
  ok_injective, str_eq, ltb→lt, assertion, subst, guard-eq-ok, refl, false, ◌≡◌, String, true,
  Option, none, some, List, Result, ok, arith, after_step, sym, ◌∙◌,
}
use myne.Evidence.{
  settlement_confirmed_within_result_window, classify_finalized_round_settlement_evidence,
  as_round_id, find_finalized_round_settlement_evidence, Value, SignatureRow, AnchorEvent, Evidence,
  Transaction,
}
use myne.Base.Int.{◌<ℤ◌, ℤ}
use myne.Evidence.Settled.{IsEvidence, find-IsEvidence}

differs : ¬ (false ≡ true)
differs h = ground arith

never_met :
    (round_id deadline_at : Value)
    → ¬ (classify_finalized_round_settlement_evidence none round_id deadline_at ≡ ok true)
unfolding classify_finalized_round_settlement_evidence
never_met round_id deadline_at h =
    let (_, h) = guard-eq-ok (is_digits (as_round_id round_id)) assertion _ h in
    after_step (safe_integer deadline_at) _ h (λ deadline _ h. differs (ok_injective h))

met_in_time :
    (e : Evidence) (round_id deadline_at : Value) (deadline : ℤ)
    → classify_finalized_round_settlement_evidence (some e) round_id deadline_at ≡ ok true
    → safe_integer deadline_at ≡ ok deadline
    → e.block_time <ℤ deadline
unfolding classify_finalized_round_settlement_evidence settlement_confirmed_within_result_window
met_in_time e round_id deadline_at deadline h d =
    let (_, h) = guard-eq-ok (is_digits (as_round_id round_id)) assertion _ h in
    after_step (safe_integer deadline_at) _ h (λ _ _ h.
      let (_, h) = guard-eq-ok (str_eq e.round_id (as_round_id round_id)) assertion _ h in
      after_step (safe_integer (number e.block_time)) _ h (λ confirmed time h.
        after_step (safe_integer deadline_at) _ h (λ limit same h.
          subst (λ x. x <ℤ deadline) (safe_integer-number e.block_time confirmed time)
            (subst (λ x. confirmed <ℤ x) (ok_injective (sym same ∙ d))
              (ltb→lt _ _ (ok_injective h))))))

module _ {Logs : Type 0} (read_page : Option String → Result (List SignatureRow))
    (read_transaction : String → Result (Option (Transaction Logs)))
    (parse_logs : Logs → Result (List AnchorEvent)) where
  -- When the evidence that the search finds is classified as in time, it is that of a transaction
  -- that settles the round, and the transaction's time is before the deadline.
  pub met_deadline-IsEvidence :
      (round_id max_pages page_size deadline_at : Value) (found : Option Evidence) (deadline : ℤ)
      → find_finalized_round_settlement_evidence read_page read_transaction parse_logs round_id
          max_pages page_size
        ≡ ok found
      → classify_finalized_round_settlement_evidence found round_id deadline_at ≡ ok true
      → safe_integer deadline_at ≡ ok deadline
      → (e : Evidence) × (found ≡ some e)
        × IsEvidence read_page read_transaction parse_logs (as_round_id round_id) e
        × (e.block_time <ℤ deadline)
  met_deadline-IsEvidence round_id max_pages page_size deadline_at none deadline h c d =
      absurd (never_met round_id deadline_at c)
  met_deadline-IsEvidence round_id max_pages page_size deadline_at (some e) deadline h c d = (
    e,
    refl,
    find-IsEvidence read_page read_transaction parse_logs round_id max_pages page_size e h,
    met_in_time e round_id deadline_at deadline c d,
  )
