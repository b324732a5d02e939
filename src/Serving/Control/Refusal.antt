-- ===== src/Serving/Control/Refusal.antt =====
-- The control messages of tokenity/serving/distributed_openai.py that a rank does not take.
use tokenity.Common.{
  ℕ, ◌+◌, ◌≡◌, ◌≢◌, ◌⊎◌, inl, inr, Bool, true, if◌then◌else◌, List, length, Option, Bool-cases,
  arith,
}
use tokenity.Errors.{ok, err, runtime_error}
use tokenity.Serving.Control.{
  uint32, Wire, jaccl_control_magic, jaccl_control_version, EpochWords, is_epoch, is_empty, Control,
  frame, is_well_formed, validate_jaccl_control_header, Shared, share_object, receive_object,
  summed,
}
use tokenity.Serving.Control.Agreement.{AreWords, summed-frame, share-ok}

is_epoch-eq : (e e' : EpochWords) → is_epoch e e'.first e'.second e'.third e'.fourth ≡ true → e' ≡ e
is_epoch-eq e e' h =
    let p1 : e'.first ≡ e.first = ground (arith, h) in
    let p2 : e'.second ≡ e.second = ground (arith, h) in
    let p3 : e'.third ≡ e.third = ground (arith, h) in
    let p4 : e'.fourth ≡ e.fourth = ground (arith, h) in
    λ i. record { first = p1 i; second = p2 i; third = p3 i; fourth = p4 i }

module _ (W : Wire) where
  well_formed_own :
      (e e' : EpochWords) (seq expected size mt checksum : ℕ)
      → is_well_formed W e expected jaccl_control_magic jaccl_control_version mt seq size e'.first
          e'.second e'.third e'.fourth checksum
        ≡ true
      → (seq ≡ expected) × (is_epoch e e'.first e'.second e'.third e'.fourth ≡ true)
  unfolding is_well_formed
  well_formed_own e e' seq expected size mt checksum h = (ground arith, ground arith)

  validate-foreign :
      (e e' : EpochWords) (seq expected : ℕ) (p : List ℕ)
      → (e' ≢ e) ⊎ (seq ≢ expected)
      → validate_jaccl_control_header W (frame W seq p e') expected e ≡ err runtime_error
  unfolding validate_jaccl_control_header
  validate-foreign e e' seq expected p d =
      elim (Bool-cases (
        is_well_formed W e expected jaccl_control_magic jaccl_control_version
          (if is_empty p then 0 else 1) seq (length p) e'.first e'.second e'.third e'.fourth
          (if is_empty p then 0 else W.crc32 p))) [
            | inl y ↦
                let (same, epoch) = well_formed_own e e' seq expected _ _ _ y in
                elim d [
                  | inl other ↦ absurd (other (is_epoch-eq e e' epoch))
                  | inr other ↦ absurd (other same)
                ]
            | inr n ↦ rw n
          ]

  -- A message that rank 0 makes for another epoch, or as another call than the one that a rank is at,
  -- is refused by that rank from its header alone, whatever the payload.
  pub receive-foreign :
      (e e' : EpochWords) (others : ℕ) (q : Bool) (o : Option W.Object) (s s' : Control)
      (sh : Shared W) (sum_data : List ℕ → List ℕ)
      → AreWords e'
      → (e' ≢ e) ⊎ (s'.control_sequence ≢ s.control_sequence)
      → share_object W e' q o s' ≡ ok sh
      → receive_object W e (summed W uint32 others sh.header) sum_data s ≡ err runtime_error
  unfolding receive_object
  receive-foreign e e' others q o s s' sh sum_data a d r =
      let (l, m, f) = share-ok W e' q o s' sh r in
      rw (
        f,
        summed-frame W (s'.control_sequence + 1) _ e' others a l m,
        validate-foreign e e' (s'.control_sequence + 1) (s.control_sequence + 1) _ (next d),
      )
    where
      next :
          (e' ≢ e) ⊎ (s'.control_sequence ≢ s.control_sequence)
          → (e' ≢ e) ⊎ (s'.control_sequence + 1 ≢ s.control_sequence + 1)
      next (inl x) = inl x
      next (inr x) = inr (λ y. x (omega arith))
