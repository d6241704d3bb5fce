-- ===== src/Stdio.antt =====
-- src/segment.c `write_all`, over the C library's output streams, which are a parameter.
use recorder.Common.{ℕ, ◌+◌, ◌≤◌, ◌<◌, ◌≡◌, refl, sym, ap, ◌∙◌, arith, Bool, true, false}
use recorder.Common.{take-append_past, take-append_within, take_all}
use recorder.Common.{
  List, [], ◌∷◌, ◌++◌, append_assoc, append-nil, length, length-append, take, ◌==◌,
}

-- A `FILE *` open for writing. `written` is what it has accepted so far, in order; `fwrite` takes
-- some front part of the buffer, all of it unless it fails, and returns how many bytes it took.
pub record Stdio : Type 1 where
  pub Stream : Type 0
  pub written : Stream → List ℕ
  pub fwrite : List ℕ → Stream → ℕ × Stream
  pub fwrite_count : (buf : List ℕ) (fp : Stream) → (fwrite buf fp).0 ≤ length buf
  pub fwrite_bytes :
      (buf : List ℕ) (fp : Stream)
      → written (fwrite buf fp).1 ≡ written fp ++ take (fwrite buf fp).0 buf

module _ (io : Stdio) where
  open io use {Stream, written, fwrite, fwrite_count, fwrite_bytes}

  -- `true` is the return value 0.
  unfoldable pub write_all : List ℕ → Stream → Bool × Stream
  write_all buf fp = let (n, fp') = fwrite buf fp in (n == length buf, fp')

  -- `len != 0 && write_all(fp, buf, len) != 0` as one operand of a chain of `||`
  unfoldable pub write_nonempty : List ℕ → Stream → Bool × Stream
  unfolding write_all
  write_nonempty buf fp =
      let r = write_all buf fp in elim (length buf == 0) [ true ↦ (true, fp) | false ↦ r ]

  -- `a != 0 || b != 0`: the second write is made only after the first succeeded.
  abbrev pub and_then : (Stream → Bool × Stream) → (Stream → Bool × Stream) → Stream → Bool × Stream
  and_then f g fp = let (done, fp') = f fp in elim done [ true ↦ g fp' | false ↦ (false, fp') ]

  -- The call accepted the first `count` bytes of `bytes`: all of them exactly when it succeeded.
  pub record Wrote (bytes : List ℕ) (fp : Stream) (r : Bool × Stream) : Type 0 where
    pub count : ℕ
    pub stored : written r.1 ≡ written fp ++ take count bytes
    pub whole : r.0 ≡ true → count ≡ length bytes
    pub torn : r.0 ≡ false → count < length bytes

  pub write_all-Wrote : (buf : List ℕ) (fp : Stream) → Wrote buf fp (write_all buf fp)
  unfolding write_all
  write_all-Wrote buf fp = record {
    count = (fwrite buf fp).0;
    stored = fwrite_bytes buf fp;
    whole = ground arith;
    torn = ground (arith, fwrite_count buf fp);
  }

  write_nonempty-cons :
      (b : ℕ) (bs : List ℕ) (fp : Stream) → write_nonempty (b ∷ bs) fp ≡ write_all (b ∷ bs) fp
  unfolding write_nonempty
  write_nonempty-cons b bs fp = ground arith

  pub write_nonempty-Wrote : (buf : List ℕ) (fp : Stream) → Wrote buf fp (write_nonempty buf fp)
  write_nonempty-Wrote [] fp =
      unfold write_nonempty in
      record { count = 0; stored = sym (append-nil _); whole = λ e. refl; torn = λ e. cc }
  write_nonempty-Wrote (b ∷ bs) fp = rw write_nonempty-cons (write_all-Wrote (b ∷ bs) fp)

  continue-Wrote :
      (a b : List ℕ) (fp : Stream) (g : Stream → Bool × Stream) (r : Bool × Stream)
      → Wrote a fp r
      → ((s : Stream) → Wrote b s (g s))
      → Wrote (a ++ b) fp (elim r.0 [ true ↦ g r.1 | false ↦ (false, r.1) ])
  continue-Wrote a b fp g (true, s) w k = record {
    count = length a + (k s).count;
    stored =
        (k s).stored
        ∙ ap (λ t. t ++ take (k s).count b)
            (w.stored ∙ ap (λ t. written fp ++ t) (take_all _ a (w.whole refl)))
        ∙ append_assoc (written fp) a _
        ∙ ap (λ t. written fp ++ t) (sym (take-append_past (k s).count a b));
    whole = λ e. omega (arith, (k s).whole e, length-append a b);
    torn = λ e. omega (arith, (k s).torn e, length-append a b);
  }
  continue-Wrote a b fp g (false, s) w k = record {
    count = w.count;
    stored =
        w.stored ∙ ap (λ t. written fp ++ t) (sym (take-append_within w.count a b (w.torn refl)));
    whole = λ e. cc;
    torn = λ e. omega (arith, w.torn refl, length-append a b);
  }

  -- A chain of writes accepts a front part of the bytes joined, all of them if it succeeds.
  pub and_then-Wrote :
      (a b : List ℕ) (fp : Stream) (f g : Stream → Bool × Stream)
      → Wrote a fp (f fp)
      → ((s : Stream) → Wrote b s (g s))
      → Wrote (a ++ b) fp (and_then f g fp)
  and_then-Wrote a b fp f g w k = continue-Wrote a b fp g (f fp) w k
