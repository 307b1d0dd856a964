-- ===== src/Clients/Shell/App/Visible.antt =====
-- What is drawn fits the terminal, and is the end of what there is.
use rustkv_lab.Prelude.{
  ℕ, zero, suc, ◌-◌, ◌≤◌, ◌<◌, ◌≡◌, ◌≢◌, refl, sym, ap, ◌∙◌, false, Bool-cases, inl, inr, List, [],
  ◌∷◌, ◌++◌, append_assoc, append-nil, arith, ◌==◌, length, drop, take, length-append, length-drop,
  take-append-drop, All, All-append,
}
use rustkv_lab.Text.Chars.{Chars}
use rustkv_lab.Clients.Shell.App.{
  ShellApp, Wrapping, wrap_char, wrap_chars, wrap_end, wrap_history_line, wrap_lines, visible_rows,
}

-- All rows but the last are full, and the last is not wider.
abbrev pub AreRows : ℕ → List Chars → Type 0
AreRows width [] = ⊥
AreRows width (row ∷ []) = length row ≤ width
AreRows width (row ∷ row' ∷ rows) = (length row ≡ width) × AreRows width (row' ∷ rows)

abbrev pub concat : List Chars → Chars
concat [] = []
concat (row ∷ rows) = row ++ concat rows

-- The rows are full, the row in work is as wide as is counted, and nothing was lost.
record IsWrapping (width : ℕ) (w : Wrapping) (line : Chars) : Type 0 where
  full : All (λ row. length row ≡ width) w.rows
  counted : length w.current ≡ w.current_width
  fits : w.current_width ≤ width
  same : concat w.rows ++ w.current ≡ line
  begun : line ≢ [] → w.current ≢ []

concat-append : (rows more : List Chars) → concat (rows ++ more) ≡ concat rows ++ concat more
concat-append [] more = refl
concat-append (row ∷ rows) more =
    ap (λ s. row ++ s) (concat-append rows more)
    ∙ sym (append_assoc row (concat rows) (concat more))

begun_by : (s : Chars) (ch : ℕ) → s ++ ch ∷ [] ≢ []
begun_by [] ch e = cc
begun_by (c ∷ s) ch e = cc

wrap_char-IsWrapping :
    (width ch : ℕ) (w : Wrapping) (line : Chars)
    → 0 < width
    → IsWrapping width w line
    → IsWrapping width (wrap_char width w ch) (line ++ ch ∷ [])
unfolding wrap_char
wrap_char-IsWrapping width ch w line pos i = elim (Bool-cases (w.current_width == width)) [
  | inl e ↦ rw e (record {
    full = All-append _ w.rows (w.current ∷ []) i.full (ground (arith, i.counted), tt);
    begun = λ _. begun_by [] ch;
    counted = refl;
    fits = omega arith;
    same = rw (concat-append w.rows (w.current ∷ []), append-nil) (ap (λ s. s ++ ch ∷ []) i.same);
  })
  | inr e ↦ rw e (record {
    full = i.full;
    counted = omega (arith, length-append w.current (ch ∷ []), i.counted);
    fits = ground (arith, i.fits);
    same = sym (append_assoc (concat w.rows) w.current (ch ∷ [])) ∙ ap (λ s. s ++ ch ∷ []) i.same;
    begun = λ _. begun_by w.current ch;
  })
]

wrap_chars-IsWrapping :
    (width : ℕ) (w : Wrapping) (before line : Chars)
    → 0 < width
    → IsWrapping width w before
    → IsWrapping width (wrap_chars width w line) (before ++ line)
unfolding wrap_chars
wrap_chars-IsWrapping width w before [] pos i = rw append-nil i
wrap_chars-IsWrapping width w before (ch ∷ line) pos i =
    rw (append_assoc before (ch ∷ []) line) at (
      wrap_chars-IsWrapping width (wrap_char width w ch) (before ++ ch ∷ []) line pos
        (wrap_char-IsWrapping width ch w before pos i))

AreRows-append :
    (width : ℕ) (rows : List Chars) (current : Chars)
    → All (λ row. length row ≡ width) rows
    → length current ≤ width
    → AreRows width (rows ++ current ∷ [])
AreRows-append width [] current full fits = fits
AreRows-append width (row ∷ []) current full fits = (full.0, fits)
AreRows-append width (row ∷ row' ∷ rows) current full fits =
    (full.0, AreRows-append width (row' ∷ rows) current full.1 fits)

-- The rows of a line, in the order of its characters.
pub record AreRowsOf (width : ℕ) (line : Chars) (rows : List Chars) : Type 0 where
  pub wide : AreRows width rows
  pub whole : concat rows ≡ line

AreRowsOf-wrapping :
    (width : ℕ) (w : Wrapping) (line : Chars)
    → IsWrapping width w line
    → AreRowsOf width line (w.rows ++ w.current ∷ [])
AreRowsOf-wrapping width w line i = record {
  wide = AreRows-append width w.rows w.current i.full (omega (arith, i.counted, i.fits));
  whole = rw (concat-append w.rows (w.current ∷ []), append-nil) i.same;
}

begin : (width : ℕ) → IsWrapping width (record { rows = []; current = []; current_width = 0 }) []
begin width = record {
  full = tt;
  counted = refl;
  fits = omega arith;
  same = refl;
  begun = λ h. absurd (h refl);
}

end_of_row :
    (width : ℕ) (w : Wrapping) (line : Chars)
    → IsWrapping width w line
    → AreRowsOf width line (wrap_end line w)
end_of_row width w [] i = ground (arith, AreRowsOf-wrapping width w [] i)
end_of_row width w (c ∷ line) i = ground (arith, AreRowsOf-wrapping width w (c ∷ line) i, i.begun)

-- A line of the shell's history, wrapped to a width that is not zero, gives rows that joined are
-- the line, all full but the last, which is not wider.
pub wrap_history_line-AreRowsOf :
    (width : ℕ) (line : Chars) → 0 < width → AreRowsOf width line (wrap_history_line line width)
unfolding wrap_history_line
wrap_history_line-AreRowsOf width line pos =
    let w : Wrapping =
      wrap_chars width (record { rows = []; current = []; current_width = 0 }) line in
    let e : (width == 0) ≡ false = ground arith in
    rw e (end_of_row width w line (wrap_chars-IsWrapping width _ [] line pos (begin width)))

rows_fit :
    (width : ℕ) (rows : List Chars) → AreRows width rows → All (λ row. length row ≤ width) rows
rows_fit width [] h = tt
rows_fit width (row ∷ []) h = (h, tt)
rows_fit width (row ∷ row' ∷ rows) h = (omega arith, rows_fit width (row' ∷ rows) h.1)

wrap_lines_fit :
    (width : ℕ) (history : List Chars)
    → 0 < width
    → All (λ row. length row ≤ width) (wrap_lines history width)
unfolding wrap_lines
wrap_lines_fit width [] pos = tt
wrap_lines_fit width (line ∷ history) pos =
    let w = wrap_history_line-AreRowsOf width line pos in
    All-append _ (wrap_history_line line width) (wrap_lines history width)
      (rows_fit width (wrap_history_line line width) w.wide) (wrap_lines_fit width history pos)

All-drop {ℓ κ} : {A : Type ℓ} (P : A → Type κ) (n : ℕ) (xs : List A) → All P xs → All P (drop n xs)
All-drop P zero xs h = h
All-drop P (suc n) [] h = h
All-drop P (suc n) (x ∷ xs) h = All-drop P n xs h.1

-- The rows that are drawn: they fit the terminal, and they are the last of the wrapped history.
pub record Fit (width height : ℕ) (app : ShellApp) (rows : List Chars) : Type 0 where
  pub narrow : All (λ row. length row ≤ width) rows
  pub few : length rows ≤ height
  pub above : List Chars
  pub last : above ++ rows ≡ wrap_lines app.history width
  pub full : height ≤ length (wrap_lines app.history width) → length rows ≡ height

-- For a width that is not zero, the rows of the history that the shell draws are not wider than the
-- terminal, not more than its height, and the last rows of the wrapped history: as many as the
-- height, if there are so many.
pub visible_rows-Fit :
    (width height : ℕ) (app : ShellApp)
    → 0 < width
    → Fit width height app (visible_rows width height app)
unfolding visible_rows
visible_rows-Fit width height app pos =
    let rows = wrap_lines app.history width in
    let left = length-drop (length rows - height) rows in
    record {
      narrow = All-drop _ (length rows - height) rows (wrap_lines_fit width app.history pos);
      few = omega (arith, left);
      above = take (length rows - height) rows;
      last = take-append-drop (length rows - height) rows;
      full = λ h. omega (arith, left);
    }
