-- ===== src/RtmDebug.antt =====
-- rtm_debug.c: the statistics of aborts. `record_abort` of Machine logs the calls that the lists
-- make; here is what a call does to the counters of its CPU.
pub mod Report
use rcx_hashtables.Base.{
  ℕ, ◌+◌, ◌/◌, ◌%◌, ◌^◌, ◌<◌, ◌≡◌, refl, ◌⊎◌, inl, inr, Bool, true, false, ◌||◌, ◌==◌,
  if◌then◌else◌, arith, ◌∙◌, zero, suc, ◌≤◌,
}
use rcx_hashtables.Machine.{xabort_status}
use rcx_hashtables.Rcx.{abort_double_free, abort_conflict, abort_lf_conflict}

-- `counts` has the indices below 9. The counters are 64 bits wide.
pub record RtmAbortCnt : Type 0 where
  pub counts : ℕ → ℕ
  pub nr_aborts : ℕ

abbrev pub ulong : ℕ → ℕ
ulong n = n % 2 ^ 64

-- `stat & (1 << k)`
abbrev pub has_bit : ℕ → ℕ → Bool
has_bit k stat = stat / 2 ^ k % 2 == 1

-- `_XABORT_CODE(stat)`
abbrev pub xabort_code : ℕ → ℕ
xabort_code stat = stat / 2 ^ 24 % 256

-- `if (test) cnt->counts[i]++;`
abbrev pub count_if : Bool → ℕ → (ℕ → ℕ) → ℕ → ℕ
count_if test i counts j =
    if (if test then j == i else false) then ulong (counts j + 1) else counts j

-- The tests of the bits below `k`. The processor sets six, each counted under its number.
abbrev pub count_bits : (k stat : ℕ) → (ℕ → ℕ) → ℕ → ℕ
count_bits zero stat counts = counts
count_bits (suc k) stat counts = count_if (has_bit k stat) k (count_bits k stat counts)

unfoldable pub record_abort : ℕ → RtmAbortCnt → RtmAbortCnt
record_abort stat cnt = record {
  counts = count_if (xabort_code stat == abort_lf_conflict) abort_lf_conflict (
      count_if (xabort_code stat == abort_conflict) abort_conflict (
        count_if (xabort_code stat == abort_double_free) abort_double_free
          (count_bits 6 stat cnt.counts)));
  nr_aborts = ulong (cnt.nr_aborts + 1);
}

-- The codes of rtm_debug.h that the lists abort with.
abbrev pub IsAbortCode : ℕ → Type 0
IsAbortCode code =
    (code ≡ abort_double_free) ⊎ ((code ≡ abort_conflict) ⊎ (code ≡ abort_lf_conflict))

-- After `_xabort(code)` of the lists, `record_abort` counts one abort, under "explicit" and under
-- the code, and under nothing else.
pub record_abort-xabort :
    (code : ℕ)
    → IsAbortCode code
    → (cnt : RtmAbortCnt) (j : ℕ)
    → ((record_abort (xabort_status code) cnt).nr_aborts ≡ ulong (cnt.nr_aborts + 1))
      × ((record_abort (xabort_status code) cnt).counts j
          ≡ (if (j == 0) || (j == code) then ulong (cnt.counts j + 1) else cnt.counts j))
unfolding record_abort
record_abort-xabort code (inl e) cnt j = (refl, rw e (ground arith))
record_abort-xabort code (inr (inl e)) cnt j = (refl, rw e (ground arith))
record_abort-xabort code (inr (inr e)) cnt j = (refl, rw e (ground arith))

pub count_if-other :
    (test : Bool) (i : ℕ) (counts : ℕ → ℕ) (j : ℕ)
    → (j == i) ≡ false
    → count_if test i counts j ≡ counts j
count_if-other true i counts j e = rw e refl
count_if-other false i counts j e = refl

pub count_bits-above :
    (k stat : ℕ) (counts : ℕ → ℕ) (j : ℕ) → k ≤ j → count_bits k stat counts j ≡ counts j
count_bits-above zero stat counts j above = refl
count_bits-above (suc k) stat counts j above =
    count_if-other (has_bit k stat) k (count_bits k stat counts) j (ground arith)
    ∙ count_bits-above k stat counts j (omega (arith, above))

-- A number below 2 ^ 24, such as the codes themselves, which the operations under lock bytes hand
-- to `record_abort`, is never counted under a code of the lists.
pub record_abort-raw :
    (stat : ℕ)
    → stat < 2 ^ 24
    → (code : ℕ) → IsAbortCode code
    → (cnt : RtmAbortCnt) → (record_abort stat cnt).counts code ≡ cnt.counts code
unfolding record_abort
record_abort-raw stat small code is cnt =
    let no_code : xabort_code stat ≡ 0 = omega (arith, small) in
    let above : 6 ≤ code = ground (arith, is) in
    rw no_code (count_bits-above 6 stat cnt.counts code above)
