-- ===== src/Frame/Integrity.antt =====
-- frame_processor.go: what a successful ReadFrameWithFlags says of the bytes that came.
use pointsub.Base.{
  ℕ, ◌%◌, ◌≡◌, refl, ap, sym, ◌∙◌, subst, ◌⊎◌, inl, inr, Bool, true, false, [], ◌++◌, arith, leb,
  ◌==◌, leb→le, if◌then◌else◌, length, take, length-take, take-append-drop, append_assoc,
  Bool-cases, length-append, get_or, get_or-append, append-nil,
}
use pointsub.Base.Bytes.{Bytes}
use pointsub.Frame.{Result, ok, err, FrameHeader, decode_header}
use pointsub.Frame.Io.{
  Read, after, read_full, read_rest_of_header, read_body, read_frame_with_flags, checksum_matches,
  verify_data, ◌>>=◌, lift, is_compact_frame,
}

-- The length of a header as the reader finds it out.
abbrev pub header_length : Bytes → ℕ
header_length header = if is_compact_frame header then 4 else 12

-- What a read that succeeds has done: a value with the property P was read from the first part.
abbrev Got : {A : Type 0} → (A → Bytes → Type 0) → Bytes → Result A × Bytes → Type 0
Got P s (ok a, s') = (part : Bytes) × (s ≡ part ++ s') × P a part
Got P s (err e, s') = Unit {0}

read_full-Got :
    (n : ℕ) (s : Bytes) → Got (λ xs part. (xs ≡ part) × (length part ≡ n)) s (read_full n s)
unfolding read_full
read_full-Got n s = elim (Bool-cases (leb n (length s))) [
  | inl fits ↦ rw fits (
    take n s,
    sym (take-append-drop n s),
    (refl, omega (arith, length-take n s, leb→le n (length s) fits)),
  )
  | inr short ↦ rw short (elim (Bool-cases (length s == 0)) [ inl e ↦ rw e tt | inr e ↦ rw e tt ])
]

Got-map :
    {A : Type 0} {P Q : A → Bytes → Type 0} (s : Bytes) (r : Result A × Bytes)
    → ((a : A) (part : Bytes) → P a part → Q a part)
    → Got P s r
    → Got Q s r
Got-map s (ok a, s') f (part, e, p) = (part, e, f a part p)
Got-map s (err x, s') f h = tt

>>=-Got :
    {A B : Type 0} (P : A → Bytes → Type 0) (Q : B → Bytes → Type 0) (m : Read A) (f : A → Read B)
    (s : Bytes)
    → Got P s (m s)
    → ((a : A) (part s' : Bytes) → P a part → Got (λ b part'. Q b (part ++ part')) s' (f a s'))
    → Got Q s ((m >>= f) s)
>>=-Got {A} {B} P Q m f s got next = go (m s) got
  where
    step :
        (part s' : Bytes)
        → s ≡ part ++ s'
        → (r : Result B × Bytes) → Got (λ b part'. Q b (part ++ part')) s' r
        → Got Q s r
    step part s' e (ok b, s'') (part', e', q) =
        (part ++ part', e ∙ (ap (λ t. part ++ t) e' ∙ sym (append_assoc part part' s'')), q)
    step part s' e (err x, s'') h = tt

    go : (r : Result A × Bytes) → Got P s r → Got Q s (after r f)
    go (ok a, s') (part, e, p) = step part s' e (f a s') (next a part s' p)
    go (err x, s') h = tt

read_rest_of_header-Got :
    (first s : Bytes)
    → Got
        (λ header part.
          (header ≡ first ++ part) × (length part ≡ (if is_compact_frame first then 0 else 8)))
        s
        (read_rest_of_header first s)
unfolding read_rest_of_header
read_rest_of_header-Got first s = elim (Bool-cases (is_compact_frame first)) [
  | inl compact ↦ rw compact ([], refl, (sym (append-nil first), refl))
  | inr standard ↦ rw standard (
      >>=-Got _ (λ header part. (header ≡ first ++ part) × (length part ≡ 8)) (read_full 8) _ s
        (read_full-Got 8 s)
        λ xs part s' p. ([], refl, (rw (append-nil part, p.0), rw (append-nil part, p.1))))
]

-- The data of a frame against the header that stood before it, with the bytes that came.
pub record IsFrame (crc32 : Bytes → ℕ) (header : Bytes) (h : FrameHeader) (bytes : Bytes)
    (flags : ℕ) : Type 0 where
  pub sized : length bytes ≡ h.size
  pub flagged : flags ≡ h.flags
  pub low_byte : (bytes ≡ []) ⊎ (h.checksum ≡ 0) ⊎ (crc32 bytes % 256 ≡ h.checksum % 256)
  pub whole_sum : length header ≡ 12 → (bytes ≡ []) ⊎ (h.checksum ≡ 0) ⊎ (crc32 bytes ≡ h.checksum)

checksum_low :
    (crc32 : Bytes → ℕ) (compact : Bool) (bytes : Bytes) (checksum : ℕ)
    → checksum_matches crc32 compact bytes checksum ≡ true
    → (checksum ≡ 0) ⊎ (crc32 bytes % 256 ≡ checksum % 256)
unfolding checksum_matches verify_data
checksum_low crc32 compact bytes checksum h = ground arith

checksum_whole :
    (crc32 : Bytes → ℕ) (bytes : Bytes) (checksum : ℕ)
    → checksum_matches crc32 false bytes checksum ≡ true
    → (checksum ≡ 0) ⊎ (crc32 bytes ≡ checksum)
unfolding checksum_matches verify_data
checksum_whole crc32 bytes checksum h = ground arith

read_body-Got :
    (crc32 : Bytes → ℕ) (compact : Bool) (header : Bytes) (h : FrameHeader) (s : Bytes)
    → (length header ≡ 12 → compact ≡ false)
    → Got (λ r part. (r.0 ≡ part) × IsFrame crc32 header h r.0 r.1) s (read_body crc32 compact h s)
unfolding read_body
read_body-Got crc32 compact header h s kind = elim (Bool-cases (h.size == 0)) [
  | inl e ↦ rw e (
    [],
    refl,
    (
      refl,
      record {
        sized = ground arith;
        flagged = refl;
        low_byte = inl refl;
        whole_sum = λ _. inl refl;
      },
    ),
  )
  | inr e ↦ rw e (
      >>=-Got _ _ (read_full h.size) _ s (read_full-Got h.size s) λ xs part s' p.
        elim (Bool-cases (checksum_matches crc32 compact xs h.checksum)) [
          | inl good ↦ rw good (
            [],
            refl,
            (
              rw (append-nil part) p.0,
              record {
                sized = ap length p.0 ∙ p.1;
                flagged = refl;
                low_byte = inr (checksum_low crc32 compact xs h.checksum good);
                whole_sum = λ twelve. inr (
                    checksum_whole crc32 xs h.checksum (
                      subst (λ c. checksum_matches crc32 c xs h.checksum ≡ true) (kind twelve)
                        good));
              },
            ),
          )
          | inr bad ↦ rw bad tt
        ])
]

-- The bytes that a successful read took: a header of that length that decodes, and the data.
abbrev TakenAsFrame : (Bytes → ℕ) → ℕ → Bytes × ℕ → Bytes → Type 0
TakenAsFrame crc32 max_frame_size r part =
    (header : Bytes) × (h : FrameHeader) × (part ≡ header ++ r.0)
    × (decode_header max_frame_size header ≡ ok h)
    × (length header ≡ header_length header)
    × IsFrame crc32 header h r.0 r.1

lift-Got :
    {A : Type 0} (r : Result A) (s : Bytes) → Got (λ a part. (part ≡ []) × (r ≡ ok a)) s (r, s)
lift-Got (ok a) s = ([], refl, (refl, refl))
lift-Got (err e) s = tt

header_size :
    (first header part : Bytes)
    → header ≡ first ++ part
    → length first ≡ 4
    → length part ≡ (if is_compact_frame first then 0 else 8)
    → length header ≡ header_length header
header_size first header part e four rest = ground (
  arith,
  ap length e,
  length-append first part,
  ap (λ t. get_or t 3 0) e,
  get_or-append first part 3 0 (omega arith),
)

standard_size :
    (first header part : Bytes)
    → header ≡ first ++ part
    → length first ≡ 4
    → length part ≡ (if is_compact_frame first then 0 else 8)
    → length header ≡ 12
    → is_compact_frame first ≡ false
standard_size first header part e four rest twelve =
    ground (arith, ap length e, length-append first part)

module _ (crc32 : Bytes → ℕ) (max_frame_size : ℕ) where
  after_header-Got :
      (compact : Bool) (header s : Bytes)
      → (length header ≡ header_length header)
      → (length header ≡ 12 → compact ≡ false)
      → Got
          (λ r part. TakenAsFrame crc32 max_frame_size r (header ++ part))
          s
          ((lift (decode_header max_frame_size header) >>= λ h. read_body crc32 compact h) s)
  after_header-Got compact header s sizes kind =
      >>=-Got (λ h part. (part ≡ []) × (decode_header max_frame_size header ≡ ok h)) _
        (lift (decode_header max_frame_size header)) _ s
        (lift-Got (decode_header max_frame_size header) s)
        λ h part s' p. rw p.0 (
          Got-map s' (read_body crc32 compact h s')
            (λ r part' q. (header, h, ap (λ t. header ++ t) (sym q.0), p.1, sizes, q.1))
            (read_body-Got crc32 compact header h s' kind))

  after_first-Got :
      (first s : Bytes)
      → length first ≡ 4
      → Got
          (λ r part. TakenAsFrame crc32 max_frame_size r (first ++ part))
          s
          ((read_rest_of_header first >>= λ header.
              lift (decode_header max_frame_size header) >>= λ h.
              read_body crc32 (is_compact_frame first) h)
            s)
  after_first-Got first s four =
      >>=-Got _ _ (read_rest_of_header first) _ s (read_rest_of_header-Got first s)
        λ header part s' p.
          Got-map s' _
            (λ r part'.
              subst (TakenAsFrame crc32 max_frame_size r)
                (ap (λ t. t ++ part') p.0 ∙ append_assoc first part part'))
            (after_header-Got (is_compact_frame first) header s'
              (header_size first header part p.0 four p.1)
              (standard_size first header part p.0 four p.1))

  read_frame_with_flags-Got :
      (s : Bytes)
      → Got (TakenAsFrame crc32 max_frame_size) s (read_frame_with_flags crc32 max_frame_size s)
  unfolding read_frame_with_flags
  read_frame_with_flags-Got s =
      >>=-Got _ (TakenAsFrame crc32 max_frame_size) (read_full 4) _ s (read_full-Got 4 s)
        λ first part s' p. rw (← p.0) (after_first-Got first s' (ap length p.0 ∙ p.1))

  -- When ReadFrameWithFlags succeeds, the bytes that it took are a header that decodes, of 4
  -- bytes if its fourth byte has the compact flag and else of 12, followed by exactly the data that it returns, as long as the header says; the
  -- flags are the header's; and if there is data and the header's checksum is not 0, the lowest
  -- byte of the checksum is that of the data, behind a header of 12 bytes the whole checksum.
  pub read_frame_with_flags-IsFrame :
      (s bytes rest : Bytes) (flags : ℕ)
      → read_frame_with_flags crc32 max_frame_size s ≡ (ok (bytes, flags), rest)
      → (header : Bytes) × (h : FrameHeader) × (s ≡ header ++ (bytes ++ rest))
        × (decode_header max_frame_size header ≡ ok h)
        × (length header ≡ header_length header)
        × IsFrame crc32 header h bytes flags
  read_frame_with_flags-IsFrame s bytes rest flags e =
      let (part, split, (header, h, parts, decodes, sizes, frame)) = got in
      (
        header,
        h,
        split ∙ (ap (λ t. t ++ rest) parts ∙ append_assoc header bytes rest),
        decodes,
        sizes,
        frame,
      )
    where
      got : Got (TakenAsFrame crc32 max_frame_size) s (ok (bytes, flags), rest)
      got = subst (Got (TakenAsFrame crc32 max_frame_size) s) e (read_frame_with_flags-Got s)
