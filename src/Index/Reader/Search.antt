-- ===== src/Index/Reader/Search.antt =====
-- The bisection over the records of an index, and the two searches by time.
use recorder.Common.{ℕ, zero, suc, ◌+◌, ◌-◌, ◌/◌, ◌<◌, ◌≤◌, ◌≡◌, refl, subst, arith, inl, inr}
use recorder.Common.{Bool-cases, some, List, ltb, ltb→lt, le→ltb_false, lt→ltb}
use native.Mathlib.Decide.{dec_lt}
use recorder.Index.{IndexFrame}
use recorder.Index.Reader.{bisect}
use recorder.Index.Reader.Contiguous.{Reads}

module _ (file : List ℕ) (field : IndexFrame → ℕ) (target : ℕ) where
  -- The record `i` can be read, and its field is below the target, or is not.
  pub record Below (i : ℕ) : Type 0 where
    pub frame : IndexFrame
    pub read : Reads file i frame
    pub below : field frame < target

  pub record Reaches (i : ℕ) : Type 0 where
    pub frame : IndexFrame
    pub read : Reads file i frame
    pub reaches : target ≤ field frame

  -- Between `lo` and `hi`: the record at `r`, if there is one, reaches the target, and the one
  -- before it is below.
  pub record Landed (lo hi r : ℕ) : Type 0 where
    pub least : lo ≤ r
    pub most : r ≤ hi
    pub here : r < hi → Reaches r
    pub before : (k : ℕ) → suc k ≡ r → lo ≤ k → Below k

  module _ (lo hi : ℕ) where
    abbrev mid : ℕ
    mid = lo + (hi - lo) / 2

    upper : (r : ℕ) → lo < hi → Below mid → Landed (mid + 1) hi r → Landed lo hi r
    upper r lt b l = record {
      least = omega (arith, l.least);
      most = l.most;
      here = l.here;
      before = λ k e le. elim (dec_lt mid k) [
        | yes past ↦ l.before k e (omega arith)
        | no at_mid ↦ let same : mid ≡ k = omega (arith, l.least) in subst Below same b
      ];
    }

    lower : (r : ℕ) → lo < hi → Reaches mid → Landed lo mid r → Landed lo hi r
    lower r lt b l = record {
      least = l.least;
      most = omega (arith, l.most);
      here = λ h. elim (dec_lt r mid) [
        | yes short ↦ l.here short
        | no at_mid ↦ let same : mid ≡ r = omega (arith, l.most) in subst Reaches same b
      ];
      before = l.before;
    }

  -- With all records readable and enough fuel, the bisection lands somewhere.
  pub bisect-Landed :
      (fuel lo hi : ℕ)
      → hi - lo ≤ fuel
      → lo ≤ hi
      → ((i : ℕ) → i < hi → (f : IndexFrame) × Reads file i f)
      → (r : ℕ) × ((bisect file field target fuel lo hi ≡ some r) × Landed lo hi r)
  unfolding bisect
  bisect-Landed zero lo hi enough le readable =
      let same : lo ≡ hi = omega arith in
      (
        lo,
        (
          rw (le→ltb_false lo hi (omega arith), bisect) refl,
          record {
            least = omega arith;
            most = omega arith;
            here = λ h. absurd (omega arith);
            before = λ k e h. absurd (omega arith);
          },
        ),
      )
  bisect-Landed (suc fuel) lo hi enough le readable = elim (dec_lt lo hi) [
    | no done ↦ (
      lo,
      (
        rw (le→ltb_false lo hi (omega arith), bisect) refl,
        record {
          least = omega arith;
          most = omega arith;
          here = λ h. absurd (omega arith);
          before = λ k e h. absurd (omega arith);
        },
      ),
    )
    | yes lt ↦
        let (frame, read) = readable (mid lo hi) (omega arith) in
        elim (Bool-cases (ltb (field frame) target)) [
          | inl small ↦
              let (r, (e, l)) =
                bisect-Landed fuel (mid lo hi + 1) hi (omega arith) (omega arith) readable in
              (
                r,
                (
                  rw (lt→ltb lo hi lt, read, small, bisect) e,
                  upper lo hi r lt record { frame = frame; read = read; below = ltb→lt _ _ small }
                      l,
                ),
              )
          | inr large ↦
              let (r, (e, l)) =
                bisect-Landed fuel lo (mid lo hi) (omega arith) (omega arith)
                  (λ i h. readable i (omega arith)) in
              (
                r,
                (
                  rw (lt→ltb lo hi lt, read, large, bisect) e,
                  lower lo hi r lt
                      record { frame = frame; read = read; reaches = ground (arith, large) } l,
                ),
              )
        ]
  ]
