-- ===== src/Ring/Late.antt =====
-- The late maps of the ring: the same records both ways round, each one held and numbered.
use logmon_mcp.Common.{ℕ, ◌+◌, ◌≤◌, ◌≡◌, true, none, some, List, [], ◌∷◌, arith}
use logmon_mcp.Entry.{LogEntry}
use logmon_mcp.Ring.Map.{
  BTreeMap, Keys, bt_get, bt_insert, bt_remove, bt_get-insert, bt_get-remove, bt_insert-Keys,
  bt_remove-Keys,
}
use logmon_mcp.Ring.Order.{has_seq}

pub record IsLate (late by_seq : BTreeMap) (counter : ℕ) (es : List LogEntry) : Type 0 where
  pub late_keys : Keys 0 late
  pub seq_keys : Keys 0 by_seq
  pub to_seq : (n q : ℕ) → bt_get late n ≡ some q → bt_get by_seq q ≡ some n
  pub to_number : (n q : ℕ) → bt_get by_seq q ≡ some n → bt_get late n ≡ some q
  pub held : (n q : ℕ) → bt_get late n ≡ some q → has_seq q es ≡ true
  pub numbered : (n q : ℕ) → bt_get late n ≡ some q → n ≤ counter

pub empty-IsLate : (counter : ℕ) (es : List LogEntry) → IsLate [] [] counter es
unfolding bt_get
empty-IsLate counter es = record {
  late_keys = tt;
  seq_keys = tt;
  to_seq = λ n q h. cc;
  to_number = λ n q h. cc;
  held = λ n q h. cc;
  numbered = λ n q h. cc;
}

pub IsLate-mono :
    (late by_seq : BTreeMap) (counter : ℕ) (es fs : List LogEntry)
    → ((q : ℕ) → has_seq q es ≡ true → has_seq q fs ≡ true)
    → IsLate late by_seq counter es
    → IsLate late by_seq counter fs
IsLate-mono late by_seq counter es fs more l = record {
  late_keys = l.late_keys;
  seq_keys = l.seq_keys;
  to_seq = l.to_seq;
  to_number = l.to_number;
  held = λ n q h. more q (l.held n q h);
  numbered = l.numbered;
}

module _ (late by_seq : BTreeMap) (counter : ℕ) (e : LogEntry) (es : List LogEntry)
    (l : IsLate late by_seq counter (e ∷ es)) where
  -- A record that was not stored late leaves.
  pub leave_plain : bt_get by_seq e.seq ≡ none → IsLate late by_seq counter es
  leave_plain plain = record {
    late_keys = l.late_keys;
    seq_keys = l.seq_keys;
    to_seq = l.to_seq;
    to_number = l.to_number;
    held = λ n q h. ground (arith, l.held n q h, l.to_seq n q h);
    numbered = l.numbered;
  }

  -- One that was leaves both maps.
  pub leave_late :
      (k : ℕ)
      → bt_get by_seq e.seq ≡ some k
      → IsLate (bt_remove late k) (bt_remove by_seq e.seq) counter es
  leave_late k late_k = record {
    late_keys = bt_remove-Keys 0 k late l.late_keys;
    seq_keys = bt_remove-Keys 0 e.seq by_seq l.seq_keys;
    to_seq = λ n q h. ground (
      arith,
      bt_get-remove 0 late k n l.late_keys,
      bt_get-remove 0 by_seq e.seq q l.seq_keys,
      l.to_seq n q,
      l.to_number k e.seq late_k,
    );
    to_number = λ n q h. ground (
      arith,
      bt_get-remove 0 late k n l.late_keys,
      bt_get-remove 0 by_seq e.seq q l.seq_keys,
      l.to_number n q,
      l.to_number k e.seq late_k,
    );
    held = λ n q h. ground (arith, bt_get-remove 0 late k n l.late_keys, l.held n q, l.to_seq n q);
    numbered = λ n q h. ground (arith, bt_get-remove 0 late k n l.late_keys, l.numbered n q);
  }

module _ (late by_seq : BTreeMap) (counter q₀ : ℕ) (es : List LogEntry)
    (l : IsLate late by_seq counter es) (is_held : has_seq q₀ es ≡ true)
    (unnumbered : bt_get by_seq q₀ ≡ none) where
  -- A held record takes the next number.
  pub number-IsLate :
      IsLate (bt_insert late (counter + 1) q₀) (bt_insert by_seq q₀ (counter + 1)) (counter + 1) es
  number-IsLate = record {
    late_keys = bt_insert-Keys 0 (counter + 1) q₀ late (omega arith) l.late_keys;
    seq_keys = bt_insert-Keys 0 q₀ (counter + 1) by_seq (omega arith) l.seq_keys;
    to_seq = λ n q h. ground (
      arith,
      bt_get-insert late (counter + 1) q₀ n,
      bt_get-insert by_seq q₀ (counter + 1) q,
      l.to_seq n q,
    );
    to_number = λ n q h. ground (
      arith,
      bt_get-insert late (counter + 1) q₀ n,
      bt_get-insert by_seq q₀ (counter + 1) q,
      l.to_number n q,
      l.numbered n q,
    );
    held = λ n q h. ground (arith, bt_get-insert late (counter + 1) q₀ n, l.held n q);
    numbered = λ n q h. ground (arith, bt_get-insert late (counter + 1) q₀ n, l.numbered n q);
  }
