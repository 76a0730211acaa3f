-- ===== src/PreBuffer/History.antt =====
-- The pre-trigger buffer over time.
use logmon_mcp.Common.{
  ℕ, zero, suc, ◌+◌, ◌-◌, ◌≤◌, ◌<◌, ◌≡◌, ◌∙◌, refl, sym, ap, false, List, [], ◌∷◌, ◌++◌, leb, ◌==◌,
  length, drop, keep, arith, Bool-cases, inl, inr, append-nil, append_assoc, length-append,
  drop_all,
}
use logmon_mcp.Entry.{LogEntry}
use logmon_mcp.PreBuffer.{Buffer, new, append, arrive, flush, resize}
use logmon_mcp.PreBuffer.Index.{
  IsBuffer, append-IsBuffer, resize-IsBuffer, new-IsBuffer, arrive-Expired,
}
use logmon_mcp.PreBuffer.Lookup.{flush-IsBuffer}

pub data Use : Type 0 where
  appends : LogEntry → Use
  flushes resizes : ℕ → Use

unfoldable pub run : Buffer → List Use → Buffer
run b [] = b
run b (appends e ∷ us) = run (append b e) us
run b (flushes n ∷ us) = run (flush b n).0 us
run b (resizes n ∷ us) = run (resize b n) us

-- Whatever is appended, flushed and resized, in whatever order: the arrival indices held ascend
-- within the last `capacity` arrivals, and each trace's list is exactly the arrivals of its
-- entries.
pub run-IsBuffer : (b : Buffer) (us : List Use) → IsBuffer b → IsBuffer (run b us)
unfolding run
run-IsBuffer b [] v = v
run-IsBuffer b (appends e ∷ us) v = run-IsBuffer (append b e) us (append-IsBuffer b e v)
run-IsBuffer b (flushes n ∷ us) v = run-IsBuffer (flush b n).0 us (flush-IsBuffer b n v)
run-IsBuffer b (resizes n ∷ us) v = run-IsBuffer (resize b n) us (resize-IsBuffer b n v)

unfoldable pub append_all : Buffer → List LogEntry → Buffer
append_all b [] = b
append_all b (e ∷ es) = append_all (append b e) es

unfoldable pub numbered : ℕ → List LogEntry → List (ℕ × LogEntry)
numbered n [] = []
numbered n (e ∷ es) = (n, e) ∷ numbered (n + 1) es

record Recent (limit : ℕ) (b : Buffer) (done : List LogEntry) : Type 0 where
  valid : IsBuffer b
  cap_eq : b.capacity ≡ limit
  count : b.arrivals ≡ length done
  held : b.entries ≡ keep (λ (a, e). leb (length done - limit) a) (numbered 0 done)

numbered-append :
    (n : ℕ) (xs ys : List LogEntry)
    → numbered n (xs ++ ys) ≡ numbered n xs ++ numbered (n + length xs) ys
unfolding numbered
numbered-append n [] ys = ground arith
numbered-append n (x ∷ xs) ys = ground (arith, numbered-append (n + 1) xs ys)

numbered-push :
    (xs : List LogEntry) (e : LogEntry)
    → numbered 0 (xs ++ e ∷ []) ≡ numbered 0 xs ++ (length xs, e) ∷ []
unfolding numbered
numbered-push xs e =
    numbered-append 0 xs (e ∷ []) ∙ ap (λ n. numbered 0 xs ++ (n, e) ∷ []) (omega arith)

keep-keep :
    (lo hi : ℕ) (xs ys : List (ℕ × LogEntry))
    → lo ≤ hi
    → keep (λ (a, e). leb hi a) (keep (λ (a, e). leb lo a) xs ++ ys)
      ≡ keep (λ (a, e). leb hi a) (xs ++ ys)
keep-keep lo hi [] ys h = refl
keep-keep lo hi ((a, e) ∷ xs) ys h = ground (arith, keep-keep lo hi xs ys h)

keep_numbered :
    (lo n : ℕ) (es : List LogEntry)
    → keep (λ (a, e). leb lo a) (numbered n es) ≡ drop (lo - n) (numbered n es)
unfolding numbered
keep_numbered lo n [] = sym (drop_all (lo - n) [] (omega arith))
keep_numbered lo n (e ∷ es) = elim (Bool-cases (leb lo n)) [
  | inl h ↦
      ground (arith, keep_numbered lo (n + 1) es, drop_none (lo - (n + 1)) (numbered (n + 1) es))
  | inr h ↦ ground (arith, keep_numbered lo (n + 1) es, drop_suc (lo - n) (lo - (n + 1)) e es)
]
  where
    drop_none : (k : ℕ) (xs : List (ℕ × LogEntry)) → k ≤ 0 → drop k xs ≡ xs
    drop_none zero xs g = refl
    drop_none (suc k) xs g = absurd (omega arith)

    drop_suc :
        (k j : ℕ) (e : LogEntry) (es : List LogEntry)
        → k ≡ suc j
        → drop k ((n, e) ∷ numbered (n + 1) es) ≡ drop j (numbered (n + 1) es)
    drop_suc k j e es g = rw g refl

append-Recent :
    (limit : ℕ) (b : Buffer) (done : List LogEntry) (e : LogEntry)
    → 0 < limit
    → Recent limit b done
    → Recent limit (append b e) (done ++ e ∷ [])
unfolding append arrive numbered
append-Recent limit b done e h r =
    let x = arrive-Expired b e r.valid in
    let positive : (b.capacity == 0) ≡ false = ground (arith, r.cap_eq, h) in
    record {
      valid = append-IsBuffer b e r.valid;
      cap_eq = rw positive (x.capacity_eq ∙ r.cap_eq);
      count = rw positive (x.arrivals_eq ∙ omega (arith, r.count, length-append done (e ∷ [])));
      held = rw positive (
          x.entries_eq
          ∙ rw (r.held, r.count, r.cap_eq, length-append done (e ∷ []), numbered-push done e)
              (keep-keep (length done - limit) (length done + 1 - limit) (numbered 0 done)
                ((length done, e) ∷ []) (omega arith)));
    }

append_all-Recent :
    (limit : ℕ) (b : Buffer) (done es : List LogEntry)
    → 0 < limit
    → Recent limit b done
    → Recent limit (append_all b es) (done ++ es)
unfolding append_all
append_all-Recent limit b done [] h r = rw (append-nil done) r
append_all-Recent limit b done (e ∷ es) h r =
    rw (append_assoc done (e ∷ []) es) at (
      append_all-Recent limit (append b e) (done ++ e ∷ []) es h (append-Recent limit b done e h r))

new-Recent : (limit : ℕ) → Recent limit (new limit) []
unfolding new numbered
new-Recent limit = record { valid = new-IsBuffer limit; cap_eq = refl; count = refl; held = refl }

-- A buffer of a positive capacity to which records are appended holds the last `capacity` of them,
-- each with its arrival index.
pub append_all-last :
    (limit : ℕ) (es : List LogEntry)
    → 0 < limit
    → (append_all (new limit) es).entries ≡ drop (length es - limit) (numbered 0 es)
append_all-last limit es h =
    (append_all-Recent limit (new limit) [] es h (new-Recent limit)).held
    ∙ keep_numbered (length es - limit) 0 es
    ∙ ap (λ n. drop n (numbered 0 es)) (omega arith)
