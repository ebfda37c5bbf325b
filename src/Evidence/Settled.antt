-- ===== src/Evidence/Settled.antt =====
-- What the evidence of a settlement that is found stands for.
use myne.Js.{Value, safe_integer, is_nullish}
use myne.Base.{
  zero, ltb, length, leb, assertion, suc, subst, guard-eq-ok, ℕ, refl, false, Option-cases,
  if◌then◌else◌, ◌≡◌, ◌⊎◌, inl, inr, String, Bool, true, Option, none, some, List, [], ◌∷◌, Result,
  ok, arith, after_step, Bool-cases, Result-cases, ap, sym, ◌∙◌,
}
use myne.Evidence.{
  cursor_of, as_round_id, search_pages, find_finalized_round_settlement_evidence, check_transaction,
  check_rows, check_row, Value, SignatureRow, AnchorEvent, Evidence, Transaction, is_settlement,
  some_settlement, evidence_of, check_logs,
}

-- One of the events settles the round.
pub HasSettlement : String → List AnchorEvent → Type 0
HasSettlement round [] = ⊥
HasSettlement round (e ∷ es) = (is_settlement round e ≡ ok true) ⊎ HasSettlement round es

some_settlement-HasSettlement :
    (round : String) (es : List AnchorEvent)
    → some_settlement round es ≡ ok true
    → HasSettlement round es
unfolding some_settlement HasSettlement
some_settlement-HasSettlement round [] h = absurd (ground arith)
some_settlement-HasSettlement round (e ∷ es) h =
    after_step (is_settlement round e) _ h (λ found step h. elim (Bool-cases found) [
      | inl here ↦ inl (step ∙ ap ok here)
      | inr not_here ↦ inr (some_settlement-HasSettlement round es (rw not_here at h))
    ])

if_ok :
    {A : Type 0} {x z : Result A} (y : Result A) (b : Bool)
    → b ≡ true
    → (if b then x else y) ≡ z
    → x ≡ z
if_ok y true e h = h
if_ok y false e h = absurd (ground arith)

module _ {Logs : Type 0} (read_page : Option String → Result (List SignatureRow))
    (read_transaction : String → Result (Option (Transaction Logs)))
    (parse_logs : Logs → Result (List AnchorEvent)) where
  -- The transaction of the evidence's signature can be read and did not fail, one of its events
  -- settles the round, and its time is the evidence's.
  pub record IsEvidence (round : String) (e : Evidence) : Type 0 where
    pub transaction : Transaction Logs
    pub logs : Logs
    pub events : List AnchorEvent
    pub read : read_transaction e.signature ≡ ok (some transaction)
    pub succeeded : is_nullish transaction.err ≡ true
    pub logged : transaction.logs ≡ some logs
    pub parsed : parse_logs logs ≡ ok events
    pub settles : HasSettlement round events
    pub timed : safe_integer transaction.block_time ≡ ok e.block_time
    pub same_round : e.round_id ≡ round

  some_ok : {A : Type 0} {a b : A} → ok (some a) ≡ ok (some b) → a ≡ b
  some_ok h = cc

  evidence_of-time :
      (round signature : String) (t : Transaction Logs) (settles : Result Bool) (e : Evidence)
      → evidence_of read_page read_transaction parse_logs round signature t settles ≡ ok (some e)
      → (settles ≡ ok true)
        × (e.signature ≡ signature)
        × (e.round_id ≡ round)
        × (safe_integer t.block_time ≡ ok e.block_time)
  unfolding evidence_of
  evidence_of-time round signature t settles e h = after_step settles _ h (λ exact step h.
      elim (Bool-cases exact) [
        | inr other ↦ absurd (ground arith)
        | inl same ↦ after_step (safe_integer t.block_time) _ (rw same at h) (λ time timed h.
            let is_e = some_ok h in
            (
              step ∙ ap ok same,
              sym (ap (λ x. x.signature) is_e),
              sym (ap (λ x. x.round_id) is_e),
              timed ∙ ap (λ x. ok x.block_time) is_e,
            ))
      ])

  check_logs-IsEvidence :
      (round signature : String) (t : Transaction Logs) (logs : Option Logs) (e : Evidence)
      → read_transaction signature ≡ ok (some t)
      → is_nullish t.err ≡ true
      → t.logs ≡ logs
      → check_logs read_page read_transaction parse_logs round signature t logs ≡ ok (some e)
      → IsEvidence round e
  unfolding check_logs
  check_logs-IsEvidence round signature t none e read good logged h = absurd (ground arith)
  check_logs-IsEvidence round signature t (some logs) e read good logged h =
      elim (Result-cases (parse_logs logs)) [
        | inr (x, failed) ↦ absurd (ground arith)
        | inl (events, parsed) ↦
            let (settles, same, round_same, timed) =
              evidence_of-time round signature t (some_settlement round events) e
                (rw (parsed, check_logs) at h) in
            record {
              transaction = t;
              logs = logs;
              events = events;
              read = rw same read;
              succeeded = good;
              logged = logged;
              parsed = parsed;
              settles = some_settlement-HasSettlement round events settles;
              timed = timed;
              same_round = round_same;
            }
      ]

  check_transaction-IsEvidence :
      (round signature : String) (t : Option (Transaction Logs)) (e : Evidence)
      → read_transaction signature ≡ ok t
      → check_transaction read_page read_transaction parse_logs round signature t ≡ ok (some e)
      → IsEvidence round e
  unfolding check_transaction
  check_transaction-IsEvidence round signature none e read h = absurd (ground arith)
  check_transaction-IsEvidence round signature (some t) e read h =
      elim (Bool-cases (is_nullish t.err)) [
        | inr failed ↦ absurd (ground arith)
        | inl good ↦
            check_logs-IsEvidence round signature t t.logs e read good refl
              (if_ok (ok none) (is_nullish t.err) good h)
      ]

  check_row-IsEvidence :
      (round : String) (row : SignatureRow) (e : Evidence)
      → check_row read_page read_transaction parse_logs round row ≡ ok (some e)
      → IsEvidence round e
  unfolding check_row
  check_row-IsEvidence round row e h = elim (Option-cases row.signature) [
    | inl unsigned ↦ absurd (ground arith)
    | inr (signature, signed) ↦ elim (Bool-cases (is_nullish row.err)) [
      | inr failed ↦ absurd (ground arith)
      | inl good ↦ elim (Result-cases (read_transaction signature)) [
        | inr (x, unread) ↦ absurd (ground arith)
        | inl (t, read) ↦
            check_transaction-IsEvidence round signature t e read
              (rw read at (rw good at (rw (signed, check_row) at h)))
      ]
    ]
  ]

  check_rows-IsEvidence :
      (round : String) (rows : List SignatureRow) (e : Evidence)
      → check_rows read_page read_transaction parse_logs round rows ≡ ok (some e)
      → IsEvidence round e
  unfolding check_rows
  check_rows-IsEvidence round [] e h = absurd (ground arith)
  check_rows-IsEvidence round (row ∷ rows) e h =
      after_step (check_row read_page read_transaction parse_logs round row) _ h (λ found step h.
        elim (Option-cases found) [
          | inl nothing ↦ check_rows-IsEvidence round rows e (rw nothing at h)
          | inr (f, here) ↦
              subst (λ x. IsEvidence round x) (some_ok (rw here at h))
                (check_row-IsEvidence round row f (step ∙ ap ok here))
        ])

  search_pages-IsEvidence :
      (pages : ℕ) (round : String) (size : ℕ) (before : Option String) (e : Evidence)
      → search_pages read_page read_transaction parse_logs pages round size before ≡ ok (some e)
      → IsEvidence round e
  unfolding search_pages
  search_pages-IsEvidence zero round size before e h = absurd (ground arith)
  search_pages-IsEvidence (suc pages) round size before e h =
      after_step (read_page before) _ h (λ rows page h.
        let (_, h) = guard-eq-ok (leb (length rows) size) assertion _ h in
        after_step (check_rows read_page read_transaction parse_logs round rows) _ h
          (λ found step h. elim (Option-cases found) [
            | inr (f, here) ↦
                subst (λ x. IsEvidence round x) (some_ok (rw here at h))
                  (check_rows-IsEvidence round rows f (step ∙ ap ok here))
            | inl nothing ↦ elim (Bool-cases (ltb (length rows) size)) [
              | inl short ↦ absurd (ground arith)
              | inr full ↦
                  after_step (cursor_of read_page read_transaction parse_logs rows) _
                    (rw full at (rw nothing at h))
                    (λ cursor _ h. search_pages-IsEvidence pages round size (some cursor) e h)
            ]
          ]))

  pub find-IsEvidence :
      (round_id max_pages page_size : Value) (e : Evidence)
      → find_finalized_round_settlement_evidence read_page read_transaction parse_logs round_id
          max_pages page_size
        ≡ ok (some e)
      → IsEvidence (as_round_id round_id) e
  unfolding find_finalized_round_settlement_evidence
  find-IsEvidence round_id max_pages page_size e h =
      let (_, h) = guard-eq-ok _ assertion _ h in
      after_step (safe_integer max_pages) _ h (λ pages _ h.
        let (_, h) = guard-eq-ok _ assertion _ h in
        after_step (safe_integer page_size) _ h (λ size _ h.
          let (_, h) = guard-eq-ok _ assertion _ h in search_pages-IsEvidence _ _ _ none e h))
