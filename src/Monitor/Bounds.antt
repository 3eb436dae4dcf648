-- ===== src/Monitor/Bounds.antt =====
-- error_monitor.go: the bounds of the history, the trends and the buffer, and the sums of the
-- statistics.
use pointsub.Base.{
  ℕ, ◌+◌, ◌-◌, ◌≤◌, ◌<◌, ◌≡◌, refl, sym, ap, ◌∙◌, List, [], ◌∷◌, ◌++◌, append_assoc, ltb,
  if◌then◌else◌, length, drop, arith, inl, inr, Bool-cases, length-append, length-drop, drop-all,
  drop-drop, append-nil, zero, suc, ltb→lt, ltb-false,
}
use pointsub.Base.Text.{Text}
use pointsub.Base.Table.{Table, find, store}
use pointsub.Monitor.{
  ErrorRecord, ErrorStatistics, ErrorMonitor, buffer_capacity, trend_limit, no_statistics, offer,
  count_of, increment, update_statistics, add_history,
}

-- The sum of the counts of a table.
unfoldable pub total : Table ℕ → ℕ
total [] = 0
total ((key, n) ∷ counts) = n + total counts

total-store :
    (key : Text) (k : ℕ) (counts : Table ℕ)
    → total (store key k counts) + count_of key counts ≡ total counts + k
unfolding total store find count_of
total-store key k [] = omega arith
total-store key k ((there, n) ∷ counts) = ground (arith, total-store key k counts)

total-increment : (key : Text) (counts : Table ℕ) → total (increment key counts) ≡ total counts + 1
unfolding increment
total-increment key counts = omega (arith, total-store key (count_of key counts + 1) counts)

-- Every error counts once in each of the tables, and as recoverable or not.
pub record IsConsistent (s : ErrorStatistics) : Type 0 where
  pub by_severity : total s.severity_counts ≡ s.total_errors
  pub by_type : total s.type_counts ≡ s.total_errors
  pub by_category : total s.category_counts ≡ s.total_errors
  pub by_source : total s.source_counts ≡ s.total_errors
  pub by_text : total s.most_frequent_errors ≡ s.total_errors
  pub by_recovery : s.recoverable_count + s.non_recoverable_count ≡ s.total_errors

pub update_statistics-IsConsistent :
    (now : ℕ) (r : ErrorRecord) (s : ErrorStatistics)
    → IsConsistent s
    → IsConsistent (update_statistics now r s)
unfolding update_statistics
update_statistics-IsConsistent now r s c = record {
  by_severity = omega (arith, total-increment _ s.severity_counts, c.by_severity);
  by_type = omega (arith, total-increment _ s.type_counts, c.by_type);
  by_category = omega (arith, total-increment r.category s.category_counts, c.by_category);
  by_source = omega (arith, total-increment r.source s.source_counts, c.by_source);
  by_text = omega (arith, total-increment r.text s.most_frequent_errors, c.by_text);
  by_recovery = ground (arith, c.by_recovery);
}

pub no_statistics-IsConsistent : (now : ℕ) → IsConsistent (no_statistics now)
unfolding total
no_statistics-IsConsistent now = record {
  by_severity = refl;
  by_type = refl;
  by_category = refl;
  by_source = refl;
  by_text = refl;
  by_recovery = refl;
}

-- The history, the trends and the buffer are within their limits, and the statistics consistent.
pub record IsBounded (m : ErrorMonitor) : Type 0 where
  pub size : 0 < m.config.history_size
  pub history : length m.error_history ≤ m.config.history_size
  pub trends : length m.trends ≤ trend_limit
  pub buffer : length m.error_buffer ≤ buffer_capacity
  pub counts : IsConsistent m.statistics

pub length-add_history :
    (size : ℕ) (r : ErrorRecord) (history : List ErrorRecord)
    → length history ≤ size
    → length (add_history size r history) ≤ size
unfolding add_history
length-add_history size r history le =
    ground (arith, length-append history (r ∷ []), length-drop 1 (history ++ r ∷ []))

pub length-offer :
    (r : ErrorRecord) (buffer : List ErrorRecord)
    → length buffer ≤ buffer_capacity
    → length (offer r buffer) ≤ buffer_capacity
unfolding offer
length-offer r buffer le = ground (arith, length-append buffer (r ∷ []))

-- The last elements of a list, at most `size`.
unfoldable pub recent {ℓ} : {A : Type ℓ} → ℕ → List A → List A
recent size xs = drop (length xs - size) xs

drop-append {ℓ} :
    {A : Type ℓ} (n : ℕ) (xs ys : List A) → n ≤ length xs → drop n (xs ++ ys) ≡ drop n xs ++ ys
drop-append zero xs ys le = refl
drop-append (suc n) [] ys le = absurd (omega arith)
drop-append (suc n) (x ∷ xs) ys le = drop-append n xs ys (omega arith)

-- The records that processErrors takes one after the other.
unfoldable pub add_all : ℕ → List ErrorRecord → List ErrorRecord → List ErrorRecord
add_all size history [] = history
add_all size history (r ∷ rs) = add_all size (add_history size r history) rs

add_history-recent :
    (size : ℕ) (r : ErrorRecord) (seen : List ErrorRecord)
    → 0 < size
    → add_history size r (recent size seen) ≡ recent size (seen ++ r ∷ [])
unfolding add_history recent
add_history-recent size r seen pos =
    let kept = drop (length seen - size) seen in
    let size_kept : length (kept ++ r ∷ []) ≡ length seen - (length seen - size) + 1 =
      omega (arith, length-append kept (r ∷ []), length-drop (length seen - size) seen) in
    elim (Bool-cases (ltb size (length (kept ++ r ∷ [])))) [
      | inl full ↦
          rw (full, if◌then◌else◌)
            (drop-append 1 kept (r ∷ []) (
                omega (
                  arith,
                  ltb→lt size (length (kept ++ r ∷ [])) full,
                  length-drop (length seen - size) seen,
                ))
              ∙ ap (λ l. l ++ r ∷ []) (drop-drop (length seen - size) 1 seen)
              ∙ sym (
                  drop-append (length seen - size + 1) seen (r ∷ [])
                    (omega (arith, ltb→lt size (length (kept ++ r ∷ [])) full)))
              ∙ ap (λ n. drop n (seen ++ r ∷ []))
                  (omega (
                    arith,
                    length-append seen (r ∷ []),
                    ltb→lt size (length (kept ++ r ∷ [])) full,
                  )))
      | inr roomy ↦
          rw (roomy, if◌then◌else◌)
            (sym (drop-append (length seen - size) seen (r ∷ []) (omega arith))
              ∙ ap (λ n. drop n (seen ++ r ∷ []))
                  (omega (
                    arith,
                    length-append seen (r ∷ []),
                    ltb-false size (length (kept ++ r ∷ [])) roomy,
                  )))
    ]

add_all-recent :
    (size : ℕ) (seen rs : List ErrorRecord)
    → 0 < size
    → add_all size (recent size seen) rs ≡ recent size (seen ++ rs)
unfolding add_all
add_all-recent size seen [] pos = ap (recent size) (sym (append-nil seen))
add_all-recent size seen (r ∷ rs) pos =
    ap (λ h. add_all size h rs) (add_history-recent size r seen pos)
    ∙ add_all-recent size (seen ++ r ∷ []) rs pos
    ∙ ap (recent size) (append_assoc seen (r ∷ []) rs)

-- Starting from an empty history, the records taken one after the other leave as the history the
-- last of them, in their order and as many as the history may hold.
pub add_all-last :
    (size : ℕ) (rs : List ErrorRecord) → 0 < size → add_all size [] rs ≡ recent size rs
unfolding recent
add_all-last size rs pos =
    ap (λ h. add_all size h rs) (sym (drop-all (0 - size) [] (omega arith)))
    ∙ add_all-recent size [] rs pos
