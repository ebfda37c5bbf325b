-- ===== src/Recovery/Validated.antt =====
-- What the recovered receipts of a round are.
use text.Mathlib.TextEquality.{eq_iff}
use myne.Js.{Value}
use myne.Base.{
  not-true, ◌>>◌, suc, assert, ℕ, ◌≡◌, ◌==◌, ==_iff, String, str_eq, true, false, Option, none,
  some, List, [], ◌∷◌, length, Result, ok, refl, arith, after_step, ok_injective, guard-eq-ok,
  assertion, has, add, distinct, has-add, ap, sym, ◌∙◌, subst, Bool-cases, inl, inr,
}
use myne.Recovery.{
  ReceiptState, Account, Recovered, as_u64, public_key_string, is_false, bytes_of,
  bet_receipt_account_size, validate_account, validate_accounts,
  validate_recovered_receipt_accounts,
}

pub receipts : List Recovered → List String
receipts [] = []
receipts (r ∷ rs) = r.receipt ∷ receipts rs

added_has : (seen : List String) (r : String) → has (add seen r) r ≡ true
added_has seen r = has-add seen r r ∙ ground (arith, eq_iff r r)

kept_has : (seen : List String) (r k : String) → has seen k ≡ true → has (add seen r) k ≡ true
kept_has seen r k h = has-add seen r k ∙ ground arith

other :
    (seen : List String) (r k : String)
    → has seen r ≡ false
    → has seen k ≡ true
    → str_eq r k ≡ false
other seen r k fresh h = elim (Bool-cases (str_eq r k)) [
  | inr apart ↦ apart
  | inl same ↦ absurd (ground (arith, eq_iff r k))
]

module _ (decode : List ℕ → Result ReceiptState)
    (derive : Option String → Value → Result (Option String × ℕ)) where
  -- The account holds a receipt of the round: it belongs to the program and has a receipt's size,
  -- it decodes to a state of that round and of the bettor, and its address and bump are those
  -- derived from the state.
  pub record IsReceiptOf (round : ℕ) (owner : String) (a : Account) (r : Recovered) : Type 0 where
    pub address : a.pubkey ≡ some r.receipt
    pub owned : a.owner ≡ some owner
    pub not_executable : is_false a.executable ≡ true
    pub bytes : List ℕ
    pub holds : a.bytes ≡ some bytes
    pub sized : length bytes ≡ bet_receipt_account_size
    pub state : ReceiptState
    pub decoded : decode bytes ≡ ok state
    pub of_round : as_u64 state.round_id ≡ ok round
    pub bettor : state.authority ≡ some r.bettor
    pub derived : derive state.authority state.nonce ≡ ok (some r.receipt, state.bump)

  -- Each account in turn gave one of the results.
  pub AllReceipts : ℕ → String → List Account → List Recovered → Type 0
  AllReceipts round owner [] [] = Unit
  AllReceipts round owner [] (r ∷ rs) = ⊥
  AllReceipts round owner (a ∷ rest) [] = ⊥
  AllReceipts round owner (a ∷ rest) (r ∷ rs) =
      IsReceiptOf round owner a r × AllReceipts round owner rest rs

  key_there : (k : Option String) (s : String) → public_key_string k ≡ ok s → k ≡ some s
  unfolding public_key_string
  key_there none s e = absurd (ground arith)
  key_there (some key) s e = ap some (ok_injective e)

  bytes_there : (b : Option (List ℕ)) (bytes : List ℕ) → bytes_of b ≡ ok bytes → b ≡ some bytes
  unfolding bytes_of
  bytes_there none bytes e = absurd (ground arith)
  bytes_there (some bs) bytes e = ap some (ok_injective e)

  pair_of :
      (derived : Option String × ℕ) (receipt : String) (bump : ℕ)
      → derived.0 ≡ some receipt
      → derived.1 ≡ bump
      → ok derived ≡ ok (some receipt, bump)
  pair_of (key, b) receipt bump same equal = ground arith

  validate_account-IsReceiptOf :
      (round : ℕ) (owner : String) (seen : List String) (a : Account) (r : Recovered)
      → validate_account decode derive round owner seen a ≡ ok r
      → IsReceiptOf round owner a r × (has seen r.receipt ≡ false)
  unfolding validate_account
  validate_account-IsReceiptOf round owner seen a r e =
      after_step (public_key_string a.pubkey) _ e (λ receipt address e.
        let (fresh, e) = guard-eq-ok _ assertion _ e in
        after_step (public_key_string a.owner) _ e (λ account_owner owned e.
          let (same_owner, e) = guard-eq-ok _ assertion _ e in
          let (data_only, e) = guard-eq-ok _ assertion _ e in
          after_step (bytes_of a.bytes) _ e (λ bytes holds e.
            let (sized, e) = guard-eq-ok _ assertion _ e in
            after_step (decode bytes) _ e (λ state decoded e.
              after_step (as_u64 state.round_id) _ e (λ state_round of_round e.
                let (same_round, e) = guard-eq-ok _ assertion _ e in
                after_step (public_key_string state.authority) _ e (λ bettor authority e.
                  after_step (derive state.authority state.nonce) _ e (λ derived at e.
                    after_step (public_key_string derived.0) _ e (λ canonical key e.
                      let (same_address, e) =
                        guard-eq-ok (str_eq canonical receipt) assertion
                          (assert (state.bump == derived.1)
                            >> ok (record { receipt = receipt; bettor = bettor }))
                          e in
                      let (same_bump, last) =
                        guard-eq-ok (state.bump == derived.1) assertion
                          (ok (record { receipt = receipt; bettor = bettor })) e in
                      let bumps : derived.1 ≡ state.bump =
                        sym ((==_iff state.bump derived.1).0 same_bump) in
                      let addresses : canonical ≡ receipt =
                        (eq_iff canonical receipt).0 same_address in
                      subst (λ x. IsReceiptOf round owner a x × (has seen x.receipt ≡ false))
                        (ok_injective last)
                        (
                          record {
                            address = key_there a.pubkey receipt address;
                            owned =
                                key_there a.owner account_owner owned
                                ∙ ap some ((eq_iff account_owner owner).0 same_owner);
                            not_executable = data_only;
                            bytes = bytes;
                            holds = bytes_there a.bytes bytes holds;
                            sized = (==_iff (length bytes) bet_receipt_account_size).0 sized;
                            state = state;
                            decoded = decoded;
                            of_round = of_round ∙ ap ok ((==_iff state_round round).0 same_round);
                            bettor = key_there state.authority bettor authority;
                            derived =
                                at
                                ∙ pair_of derived receipt state.bump
                                    (key_there derived.0 canonical key ∙ ap some addresses) bumps;
                          },
                          not-true (has seen receipt) fresh,
                        )))))))))

  validate_accounts-AllReceipts :
      (round : ℕ) (owner : String) (seen : List String) (accounts : List Account)
      (rs : List Recovered)
      → validate_accounts decode derive round owner seen accounts ≡ ok rs
      → AllReceipts round owner accounts rs
        × (distinct (receipts rs) ≡ true)
        × ((k : String) → has seen k ≡ true → has (receipts rs) k ≡ false)
        × (length rs ≡ length accounts)
  unfolding validate_accounts AllReceipts receipts distinct has
  validate_accounts-AllReceipts round owner seen [] rs e =
      subst
        (λ x.
          AllReceipts round owner [] x
          × (distinct (receipts x) ≡ true)
          × ((k : String) → has seen k ≡ true → has (receipts x) k ≡ false)
          × (length x ≡ 0))
        (ok_injective e) (tt, refl, λ k h. refl, refl)
  validate_accounts-AllReceipts round owner seen (a ∷ rest) rs e =
      after_step (validate_account decode derive round owner seen a) _ e (λ one valid e.
        after_step (validate_accounts decode derive round owner (add seen one.receipt) rest) _ e
          (λ others more e.
            let (is_receipt, fresh) = validate_account-IsReceiptOf round owner seen a one valid in
            let (all, apart, unseen, count) =
              validate_accounts-AllReceipts round owner (add seen one.receipt) rest others more in
            subst
              (λ x.
                AllReceipts round owner (a ∷ rest) x
                × (distinct (receipts x) ≡ true)
                × ((k : String) → has seen k ≡ true → has (receipts x) k ≡ false)
                × (length x ≡ length (a ∷ rest)))
              (ok_injective e)
              (
                (is_receipt, all),
                rw (unseen one.receipt (added_has seen one.receipt)) apart,
                λ k h.
                    rw (other seen one.receipt k fresh h)
                      (unseen k (kept_has seen one.receipt k h)),
                ap suc count,
              )))

  -- Recovered receipts that are accepted are as many as the live count says, no two have one
  -- address, and each account is in turn a receipt of the round at its derived address, owned by the program.
  pub validate_recovered_receipt_accounts-AllReceipts :
      (accounts : List Account) (live_count round_id : Value) (program_id : Option String)
      (rs : List Recovered)
      → validate_recovered_receipt_accounts decode derive accounts live_count round_id program_id
        ≡ ok rs
      → (round : ℕ) × (owner : String) × (as_u64 round_id ≡ ok round)
        × (program_id ≡ some owner)
        × AllReceipts round owner accounts rs
        × (distinct (receipts rs) ≡ true)
        × (as_u64 live_count ≡ ok (length rs))
  unfolding validate_recovered_receipt_accounts
  validate_recovered_receipt_accounts-AllReceipts accounts live_count round_id program_id rs e =
      after_step (as_u64 live_count) _ e (λ expected live e.
        let (_, e) = guard-eq-ok _ assertion _ e in
        let (same_count, e) = guard-eq-ok _ assertion _ e in
        after_step (as_u64 round_id) _ e (λ round of_round e.
          after_step (public_key_string program_id) _ e (λ owner program e.
            let (all, apart, _, count) =
              validate_accounts-AllReceipts round owner [] accounts rs e in
            (
              round,
              owner,
              of_round,
              key_there program_id owner program,
              all,
              apart,
              live ∙ ap ok (sym ((==_iff (length accounts) expected).0 same_count) ∙ sym count),
            ))))
