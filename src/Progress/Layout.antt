-- ===== src/Progress/Layout.antt =====
-- The width of the bar's line.
use pget.Base.{
  ℕ, zero, suc, ◌+◌, ◌-◌, ◌^◌, ◌≤◌, ◌<◌, ◌≡◌, refl, ap, inl, inr, Bool, false, not, ◌&&◌, ◌==◌, ltb,
  leb, if◌then◌else◌, List, [], ◌∷◌, ◌++◌, arith, length, length-append, length-replicate, take,
  bytes, Bool-cases,
}
use pget.Base.Int64.{sub64, lt64, le64, half}
use pget.Progress.{short_label, spaces, clamp_width, cells, overhead, pad, bar_line}

length-take_le : (n : ℕ) (xs : List ℕ) → length (take n xs) ≤ n
length-take_le zero xs = omega arith
length-take_le (suc n) [] = omega arith
length-take_le (suc n) (x ∷ xs) = omega (arith, length-take_le n xs)

-- The columns that a line of UTF-8 takes: none for a carriage return and for a continuation byte.
abbrev is_column : ℕ → Bool
is_column b = not (b == 13) && not (leb 128 b && ltb b 192)

unfoldable pub columns : List ℕ → ℕ
columns [] = 0
columns (b ∷ line) = let rest = columns line in if is_column b then suc rest else rest

columns-append : (xs ys : List ℕ) → columns (xs ++ ys) ≡ columns xs + columns ys
unfolding columns
columns-append [] ys = omega arith
columns-append (x ∷ xs) ys = elim (Bool-cases (is_column x)) [
  | inl e ↦ rw e (omega (arith, columns-append xs ys))
  | inr e ↦ rw e (columns-append xs ys)
]

columns_le : (xs : List ℕ) → columns xs ≤ length xs
unfolding columns
columns_le [] = omega arith
columns_le (x ∷ xs) = elim (Bool-cases (is_column x)) [
  | inl e ↦ rw e (omega (arith, columns_le xs))
  | inr e ↦ rw e (omega (arith, columns_le xs))
]

-- A cut label has the mark, which is one column of three bytes.
short_label-columns :
    (label : List ℕ) (n : ℕ) → n < half → length label < half → columns (short_label label n) ≤ n
unfolding short_label
short_label-columns label n small fits =
    let cut = columns-append (take (n - 1) label) (226 ∷ 128 ∷ 166 ∷ []) in
    let mark : columns (226 ∷ 128 ∷ 166 ∷ []) ≡ 1 = unfold columns in refl in
    let none_left : columns [] ≡ 0 = unfold columns in refl in
    ground (
      arith,
      length-take_le (n - 1) label,
      columns_le (take (n - 1) label),
      columns_le label,
      cut,
      mark,
      none_left,
    )

-- The mark of a shortened label is one column of three bytes.
short_label-length :
    (label : List ℕ) (n : ℕ) → n < half → length label < half → length (short_label label n) ≤ n + 2
unfolding short_label
short_label-length label n small fits =
    ground (
      arith,
      length-take_le (n - 1) label,
      length-append (take (n - 1) label) (226 ∷ 128 ∷ 166 ∷ []),
    )

clamp_width-bounds :
    (available : ℕ)
    → 4 ≤ available
    → available < half
    → (4 ≤ clamp_width available)
      × (clamp_width available ≤ 30)
      × (clamp_width available ≤ available)
unfolding clamp_width
clamp_width-bounds available room small = ground arith

length-cells : (i n filled : ℕ) → length (cells i n filled) ≡ n
unfolding cells
length-cells i zero filled = refl
length-cells i (suc n) filled = ap suc (length-cells (suc i) n filled)

length-spaces : (n : ℕ) → n < half → length (spaces n) ≡ n
unfolding spaces
length-spaces zero h = refl
length-spaces (suc n) h =
    let some_left : le64 (suc n) 0 ≡ false = ground arith in
    rw some_left (length-replicate (suc n) b' ')

-- A line that is shorter is filled up.
pad-length :
    (width : ℕ) (line : List ℕ)
    → width < half
    → length line < half
    → width ≤ length (pad width line)
unfolding pad
pad-length width line small fits = elim (Bool-cases (lt64 (length line) width)) [
  | inl e ↦
      let short : length line < width = ground arith in
      let sum = length-append line (spaces (width - length line)) in
      let rest = length-spaces (width - length line) (omega (arith, small)) in
      rw e (omega (arith, short, sum, rest))
  | inr e ↦ rw e (ground arith)
]

abbrev line_of : List ℕ → List ℕ → List ℕ → List ℕ → List ℕ
line_of label conn bar stats = (13 ∷ []) ++ label ++ conn ++ bytes " [" ++ bar ++ bytes "]" ++ stats

line_of-length :
    (label conn bar stats : List ℕ)
    → length (line_of label conn bar stats) ≡ overhead conn stats + length label + length bar
unfolding overhead
line_of-length label conn bar stats =
    let opened : length (bytes " [") ≡ 2 = unfold bytes in refl in
    let closed : length (bytes "]") ≡ 1 = unfold bytes in refl in
    let with_conn = length-append label conn in
    let with_open = length-append (label ++ conn) (bytes " [") in
    let with_bar = length-append (label ++ conn ++ bytes " [") bar in
    let with_close = length-append (label ++ conn ++ bytes " [" ++ bar) (bytes "]") in
    let whole = length-append (label ++ conn ++ bytes " [" ++ bar ++ bytes "]") stats in
    omega (arith, opened, closed, with_conn, with_open, with_bar, with_close, whole)

line_of-columns :
    (label conn bar stats : List ℕ)
    → suc (columns (line_of label conn bar stats))
      ≤ overhead conn stats + columns label + length bar
unfolding overhead
line_of-columns label conn bar stats =
    let start : columns (13 ∷ []) ≡ 0 = unfold columns in refl in
    let opened : length (bytes " [") ≡ 2 = unfold bytes in refl in
    let closed : length (bytes "]") ≡ 1 = unfold bytes in refl in
    let with_label = columns-append (13 ∷ []) label in
    let with_conn = columns-append ((13 ∷ []) ++ label) conn in
    let with_open = columns-append ((13 ∷ []) ++ label ++ conn) (bytes " [") in
    let with_bar = columns-append ((13 ∷ []) ++ label ++ conn ++ bytes " [") bar in
    let with_close = columns-append ((13 ∷ []) ++ label ++ conn ++ bytes " [" ++ bar) (bytes "]") in
    let whole =
      columns-append ((13 ∷ []) ++ label ++ conn ++ bytes " [" ++ bar ++ bytes "]") stats in
    omega (
      arith,
      start,
      opened,
      closed,
      with_label,
      with_conn,
      with_open,
      with_bar,
      with_close,
      whole,
      columns_le conn,
      columns_le bar,
      columns_le stats,
      columns_le (bytes " ["),
      columns_le (bytes "]"),
    )

-- The spaces make a line as long as the width, of which the carriage return is one byte.
pad-columns :
    (width : ℕ) (rest : List ℕ)
    → width < half
    → 0 < width
    → length (13 ∷ rest) < half
    → suc (columns (13 ∷ rest)) ≤ width
    → suc (columns (pad width (13 ∷ rest))) ≤ width
unfolding pad
pad-columns width rest small some_columns fits h =
    elim (Bool-cases (lt64 (length (13 ∷ rest)) width)) [
      | inl e ↦
          let short : length (13 ∷ rest) < width = ground arith in
          let padding = spaces (width - length (13 ∷ rest)) in
          let sum = columns-append (13 ∷ rest) padding in
          let blank = length-spaces (width - length (13 ∷ rest)) (omega (arith, small)) in
          let start : columns (13 ∷ rest) ≡ columns rest = unfold columns in refl in
          rw e (omega (arith, short, sum, blank, start, columns_le padding, columns_le rest))
      | inr e ↦ rw e h
    ]

-- On a terminal of at least four columns more than the connections and the statistics need, the bar has
-- between 4 and 30 cells, and its line has at least as many bytes as the terminal has columns, but
-- takes fewer columns than it, so that it does not wrap: a byte is a column except for the carriage
-- return and the continuation bytes of UTF-8. The widths of terminal and label are below 2^62.
pub bar_line-fits :
    (width : ℕ) (label conn stats : List ℕ) (filled : ℕ)
    → overhead conn stats + 4 ≤ width
    → width < 2 ^ 62
    → length label < 2 ^ 62
    → (4 ≤ clamp_width (sub64 width (overhead conn stats)))
      × (clamp_width (sub64 width (overhead conn stats)) ≤ 30)
      × (width ≤ length (bar_line width label conn stats filled))
      × (columns (bar_line width label conn stats filled) < width)
unfolding bar_line
bar_line-fits width label conn stats filled room small fits =
    let available = sub64 width (overhead conn stats) in
    let left : available ≡ width - overhead conn stats = omega (arith, room, small) in
    let (least, most, inside) =
      clamp_width-bounds available (omega (arith, left, room)) (omega (arith, left, small)) in
    let bar_width = clamp_width available in
    let shown = short_label label (sub64 available bar_width) in
    let remaining : sub64 available bar_width ≡ available - bar_width =
      omega (arith, inside, left, small) in
    let label_fits : columns shown ≤ sub64 available bar_width =
      short_label-columns label (sub64 available bar_width) (omega (arith, remaining, left, small))
        (omega (arith, fits)) in
    let sum = line_of-columns shown conn (cells 0 bar_width filled) stats in
    let bar = length-cells 0 bar_width filled in
    let line = line_of shown conn (cells 0 bar_width filled) stats in
    let line_fits : length line < half = omega (
      arith,
      line_of-length shown conn (cells 0 bar_width filled) stats,
      bar,
      short_label-length label (sub64 available bar_width) (omega (arith, remaining, left, small))
          (omega (arith, fits)),
      remaining,
      left,
      inside,
      room,
      small,
    ) in
    let wide = pad-length width line (omega (arith, small)) line_fits in
    let narrow =
      pad-columns width _ (omega (arith, small)) (omega (arith, room)) line_fits
        (omega (arith, sum, bar, label_fits, remaining, left, inside, room)) in
    (least, most, wide, narrow)
