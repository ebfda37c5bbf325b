-- ===== src/Archive/Binding.antt =====
-- What the two digests of a server proof bind it to, for a hash that reads its parts one after the other.
use mathlib.Core.List.{flatten}
use myne.Js.{hex_bytes, length-hex_bytes}
use myne.Js.Pattern.{is_hex_32}
use myne.Archive.{some_text}
use myne.Js.{Value, is_nullish}
use myne.Archive.Proof.{
  expected_output, expected_commitment, check_server_proof, require_round_randomness_proof, server,
  ArchiveProof, switchboard_proof, switchboard_provider_kind, server_provider_kind, ProofColumns,
  read_server_proof, required_u64, in_u64, required_hex_32, server_commit_domain,
  server_output_domain, ServerProof, bytes_le, u64_le,
}
use myne.Archive.Audits.{check_server_proof_iff}
use myne.Base.{
  true, false, err, if◌then◌else◌, Result, str_eq, Bool, ℕ, subst, ok_injective, guard-eq-ok,
  >>=-eq-ok, plain_error, ◌^◌, ◌<◌, ◌≡◌, refl, sym, ap, ◌∙◌, String, List, [], ◌∷◌, ◌++◌, length,
  ok, ◌⊎◌, inl, inr, arith,
}
use myne.Archive.Bytes.{Collision, same_input, same_parts, length-bytes_le, u64_le_injective}

-- What the columns of a proof are read into.
record IsRead (c : ProofColumns) (round_id : ℕ) (p : ServerProof) : Type 0 where
  named : required_u64 c.round_id ≡ ok round_id
  small_round : round_id < 2 ^ 64
  small_slot : p.entropy_slot < 2 ^ 64
  reveal : length (hex_bytes p.reveal_hex) ≡ 32
  entropy_hash : length (hex_bytes p.entropy_hash_hex) ≡ 32

required_u64-small : (v : Value) (n : ℕ) → required_u64 v ≡ ok n → n < 2 ^ 64
unfolding required_u64 in_u64
required_u64-small v n e = ground arith

required_hex_32-bytes :
    (v : Value) (s : String) → required_hex_32 v ≡ ok s → length (hex_bytes s) ≡ 32
unfolding required_hex_32 is_hex_32
required_hex_32-bytes v s e =
    let (t, _, e1) = >>=-eq-ok (some_text v) _ e in
    let (hex, e2) = guard-eq-ok (is_hex_32 t) plain_error _ e1 in
    length-hex_bytes s (rw (← ok_injective e2) (ground arith))

read_server_proof-IsRead :
    (c : ProofColumns) (output signature : String) (round_id : ℕ) (p : ServerProof)
    → read_server_proof c output signature ≡ ok (round_id, p)
    → IsRead c round_id p
unfolding read_server_proof
read_server_proof-IsRead c output signature round_id p e =
    let (_, e1) = guard-eq-ok (is_nullish c.randomness_id) plain_error _ e in
    let (_, e2) = guard-eq-ok (is_nullish c.randomness_commit_slot) plain_error _ e1 in
    let (_, _, e3) = >>=-eq-ok (required_hex_32 c.commitment_hex) _ e2 in
    let (reveal, r, e4) = >>=-eq-ok (required_hex_32 c.reveal_hex) _ e3 in
    let (_, _, e5) = >>=-eq-ok (required_u64 c.target_slot) _ e4 in
    let (slot, s, e6) = >>=-eq-ok (required_u64 c.entropy_slot) _ e5 in
    let (hash, h, e7) = >>=-eq-ok (required_hex_32 c.entropy_hash_hex) _ e6 in
    let (_, _, e8) = >>=-eq-ok (some_text c.commitment_signature) _ e7 in
    let (_, _, e9) = >>=-eq-ok (required_u64 c.commitment_tx_slot) _ e8 in
    let (_, _, e10) = >>=-eq-ok (some_text c.lock_signature) _ e9 in
    let (_, _, e11) = >>=-eq-ok (required_u64 c.lock_tx_slot) _ e10 in
    let (_, _, e12) = >>=-eq-ok (some_text c.reveal_signature) _ e11 in
    let (_, _, e13) = >>=-eq-ok (required_u64 c.reveal_tx_slot) _ e12 in
    let (_, _, e14) = >>=-eq-ok (required_u64 c.settlement_slot) _ e13 in
    let (id, i, e15) = >>=-eq-ok (required_u64 c.round_id) _ e14 in
    subst (λ (q : ℕ × ServerProof). IsRead c q.0 q.1) (ok_injective e15)
      (record {
        named = i;
        small_round = required_u64-small c.round_id id i;
        small_slot = required_u64-small c.entropy_slot slot s;
        reveal = required_hex_32-bytes c.reveal_hex reveal r;
        entropy_hash = required_hex_32-bytes c.entropy_hash_hex hash h;
      })

abbrev commitment_input : List ℕ → List ℕ → ℕ → ServerProof → List ℕ
commitment_input program mint round_id p =
    flatten (server_commit_domain ∷ program ∷ mint ∷ u64_le round_id ∷ hex_bytes p.reveal_hex ∷ [])

abbrev output_input : List ℕ → List ℕ → ℕ → ServerProof → List ℕ
output_input program mint round_id p = flatten (
    server_output_domain
    ∷ program
    ∷ mint
    ∷ u64_le round_id
    ∷ hex_bytes p.reveal_hex
    ∷ u64_le p.entropy_slot
    ∷ hex_bytes p.entropy_hash_hex
    ∷ [])

-- The parts that both digests begin with.
same_prefix :
    (domain program mint program' mint' us vs : List ℕ) (round_id round_id' : ℕ)
    → length program ≡ length program'
    → length mint ≡ length mint'
    → round_id < 2 ^ 64
    → round_id' < 2 ^ 64
    → domain ++ (program ++ (mint ++ (u64_le round_id ++ us)))
      ≡ domain ++ (program' ++ (mint' ++ (u64_le round_id' ++ vs)))
    → (program ≡ program') × (mint ≡ mint') × (round_id ≡ round_id') × (us ≡ vs)
unfolding u64_le
same_prefix domain program mint program' mint' us vs round_id round_id' lp lm small small' e =
    let (_, e1) = same_parts domain domain _ _ refl e in
    let (programs, e2) = same_parts program program' _ _ lp e1 in
    let (mints, e3) = same_parts mint mint' _ _ lm e2 in
    let (ids, e4) =
      same_parts (bytes_le 8 round_id) (bytes_le 8 round_id') _ _
        (length-bytes_le 8 round_id ∙ sym (length-bytes_le 8 round_id')) e3 in
    (programs, mints, u64_le_injective round_id round_id' small small' ids, e4)

commitment_parts :
    (c c' : ProofColumns) (program mint program' mint' : List ℕ) (round_id round_id' : ℕ)
    (p p' : ServerProof)
    → length program ≡ length program'
    → length mint ≡ length mint'
    → IsRead c round_id p
    → IsRead c' round_id' p'
    → commitment_input program mint round_id p ≡ commitment_input program' mint' round_id' p'
    → (program ≡ program')
      × (mint ≡ mint')
      × (round_id ≡ round_id')
      × (hex_bytes p.reveal_hex ≡ hex_bytes p'.reveal_hex)
unfolding flatten
commitment_parts c c' program mint program' mint' round_id round_id' p p' lp lm r r' e =
    let (programs, mints, ids, rest) =
      same_prefix server_commit_domain program mint program' mint' _ _ round_id round_id' lp lm
        r.small_round r'.small_round e in
    let (reveals, _) = same_parts (hex_bytes p.reveal_hex) _ _ _ (r.reveal ∙ sym r'.reveal) rest in
    (programs, mints, ids, reveals)

output_parts :
    (c c' : ProofColumns) (program mint program' mint' : List ℕ) (round_id round_id' : ℕ)
    (p p' : ServerProof)
    → length program ≡ length program'
    → length mint ≡ length mint'
    → IsRead c round_id p
    → IsRead c' round_id' p'
    → output_input program mint round_id p ≡ output_input program' mint' round_id' p'
    → (program ≡ program')
      × (mint ≡ mint')
      × (round_id ≡ round_id')
      × (hex_bytes p.reveal_hex ≡ hex_bytes p'.reveal_hex)
      × (p.entropy_slot ≡ p'.entropy_slot)
      × (hex_bytes p.entropy_hash_hex ≡ hex_bytes p'.entropy_hash_hex)
unfolding flatten u64_le
output_parts c c' program mint program' mint' round_id round_id' p p' lp lm r r' e =
    let (programs, mints, ids, e1) =
      same_prefix server_output_domain program mint program' mint' _ _ round_id round_id' lp lm
        r.small_round r'.small_round e in
    let (reveals, e2) = same_parts (hex_bytes p.reveal_hex) _ _ _ (r.reveal ∙ sym r'.reveal) e1 in
    let (slots, e3) =
      same_parts (bytes_le 8 p.entropy_slot) (bytes_le 8 p'.entropy_slot) _ _
        (length-bytes_le 8 p.entropy_slot ∙ sym (length-bytes_le 8 p'.entropy_slot)) e2 in
    let (hashes, _) =
      same_parts (hex_bytes p.entropy_hash_hex) _ _ _ (r.entropy_hash ∙ sym r'.entropy_hash) e3 in
    let same_slot =
      u64_le_injective p.entropy_slot p'.entropy_slot r.small_slot r'.small_slot slots in
    (programs, mints, ids, reveals, same_slot, hashes)

by_kind :
    (a b : Bool) (x y : Result ArchiveProof) (r : ArchiveProof)
    → (if a then x else (if b then y else err plain_error)) ≡ ok r
    → (x ≡ ok r) ⊎ (y ≡ ok r)
by_kind true b x y r e = inl e
by_kind false true x y r e = inr e
by_kind false false x y r e = absurd (cc)

no_server :
    (c : ProofColumns) (output signature : String) (p : ServerProof)
    → ¬ (switchboard_proof c output signature ≡ ok (server p))
unfolding switchboard_proof
no_server c output signature p e = ground arith

server_injective : {p q : ServerProof} → server p ≡ server q → p ≡ q
server_injective e = cc

check_server_proof-same :
    (hash_hex : List (List ℕ) → String) (program mint : List ℕ) (round_id : ℕ) (p q : ServerProof)
    → check_server_proof hash_hex program mint round_id p ≡ ok q
    → p ≡ q
unfolding check_server_proof
check_server_proof-same hash_hex program mint round_id p q e = ground arith

-- The reading and the check of an accepted server proof.
accepted_inv :
    (hash_hex : List (List ℕ) → String) (c : ProofColumns) (program mint : List ℕ) (p : ServerProof)
    → require_round_randomness_proof hash_hex c program mint ≡ ok (server p)
    → (round_id : ℕ) × IsRead c round_id p
      × (check_server_proof hash_hex program mint round_id p ≡ ok p)
unfolding require_round_randomness_proof
accepted_inv hash_hex c program mint p e =
    let (kind, _, e1) = >>=-eq-ok (some_text c.provider_kind) _ e in
    let (output, _, e2) = >>=-eq-ok (required_hex_32 c.randomness_hex) _ e1 in
    let (signature, _, e3) = >>=-eq-ok (some_text c.settlement_signature) _ e2 in
    elim (by_kind (str_eq kind switchboard_provider_kind) (str_eq kind server_provider_kind) _ _ _
      e3) [
        | inl other ↦ absurd (no_server c output signature p other)
        | inr mine ↦
            let ((id, q), read, e4) = >>=-eq-ok (read_server_proof c output signature) _ mine in
            let (q', checked, e5) =
              >>=-eq-ok (check_server_proof hash_hex program mint id q) _ e4 in
            let same : q' ≡ p = server_injective (ok_injective e5) in
            let kept : q ≡ p =
              check_server_proof-same hash_hex program mint id q q' checked ∙ same in
            (
              id,
              subst (IsRead c id) kept (read_server_proof-IsRead c output signature id q read),
              subst (λ (r : ServerProof). check_server_proof hash_hex program mint id r ≡ ok r) kept
                  (checked ∙ ap ok (same ∙ sym kept)),
            )
      ]

-- What two proofs with one commitment share.
abbrev pub SameRound : ProofColumns → ProofColumns → ServerProof → ServerProof → Type 0
SameRound c c' p p' =
    (required_u64 c.round_id ≡ required_u64 c'.round_id)
    × (hex_bytes p.reveal_hex ≡ hex_bytes p'.reveal_hex)

-- What two proofs with one output share besides.
abbrev pub SameEntropy : ServerProof → ServerProof → Type 0
SameEntropy p p' =
    (p.entropy_slot ≡ p'.entropy_slot)
    × (hex_bytes p.entropy_hash_hex ≡ hex_bytes p'.entropy_hash_hex)

-- Of two accepted server proofs, of any rounds, programs and mints, and for a hash of the joined
-- bytes: those with one commitment are of the same program, mint and round and reveal the same
-- bytes, and those with one output have the same entropy slot and hash besides, unless two
-- different inputs with one digest are found.
pub require_round_randomness_proof-binds :
    (hash : List ℕ → String) (c c' : ProofColumns) (program mint program' mint' : List ℕ)
    (p p' : ServerProof)
    → require_round_randomness_proof (λ parts. hash (flatten parts)) c program mint ≡ ok (server p)
    → require_round_randomness_proof (λ parts. hash (flatten parts)) c' program' mint'
      ≡ ok (server p')
    → (p.commitment_hex ≡ p'.commitment_hex
        → ((program ≡ program') × (mint ≡ mint') × SameRound c c' p p') ⊎ Collision hash)
      × (p.randomness_hex ≡ p'.randomness_hex
          → ((program ≡ program') × (mint ≡ mint') × SameRound c c' p p' × SameEntropy p p')
            ⊎ Collision hash)
unfolding expected_commitment expected_output
require_round_randomness_proof-binds hash c c' program mint program' mint' p p' e e' =
    let joined : List (List ℕ) → String = λ parts. hash (flatten parts) in
    let (id, r, checked) = accepted_inv joined c program mint p e in
    let (id', r', checked') = accepted_inv joined c' program' mint' p' e' in
    let (lp, lm, _, _, _, _, _, _, commitment, output) =
      (check_server_proof_iff joined program mint id p).0 checked in
    let (lp', lm', _, _, _, _, _, _, commitment', output') =
      (check_server_proof_iff joined program' mint' id' p').0 checked' in
    (
      λ h. elim (same_input hash _ _ (sym commitment ∙ h ∙ commitment')) [
        | inr collision ↦ inr collision
        | inl same ↦
            let (programs, mints, ids, reveals) =
              commitment_parts c c' program mint program' mint' id id' p p' (lp ∙ sym lp')
                (lm ∙ sym lm') r r' same in
            inl (programs, mints, (r.named ∙ ap ok ids ∙ sym r'.named, reveals))
      ],
      λ h. elim (same_input hash _ _ (sym output ∙ h ∙ output')) [
        | inr collision ↦ inr collision
        | inl same ↦
            let (programs, mints, ids, reveals, slots, hashes) =
              output_parts c c' program mint program' mint' id id' p p' (lp ∙ sym lp')
                (lm ∙ sym lm') r r' same in
            inl (programs, mints, (r.named ∙ ap ok ids ∙ sym r'.named, reveals), (slots, hashes))
      ],
    )
