-- ===== src/Bq/Load.antt =====
-- What `InsertRows` of internal/bq/client.go loads.
use go_drive_etl.Common.{
  some, [], ◌∷◌, ok, err, Text, List, Option, Result, Error, ◌>>=◌, refl, sym, ap, ◌∙◌, ◌≡◌, ◌++◌,
  append_assoc, append-nil,
}
use go_drive_etl.Csv.{newline}
use go_drive_etl.Etl.Program.{Row}
use go_drive_etl.Bq.{Client, write_lines, run_job, load_rows}

module _ (marshal : Row → Result Text) where
  -- The texts of all rows, or the error of the first that has none.
  abbrev pub marshal_all : List Row → Result (List Text)
  marshal_all [] = ok []
  marshal_all (row ∷ rows) = marshal row >>= λ line. marshal_all rows >>= λ lines. ok (line ∷ lines)

  abbrev pub lines_text : List Text → Text
  lines_text [] = []
  lines_text (line ∷ lines) = (line ++ newline ∷ []) ++ lines_text lines

  lines-next :
      (line : Text) (r : Result (List Text)) (buf : Text)
      → (r >>= λ lines. ok ((buf ++ line ++ newline ∷ []) ++ lines_text lines))
        ≡ ((r >>= λ lines. ok (line ∷ lines)) >>= λ lines. ok (buf ++ lines_text lines))
  lines-next line (err e) buf = refl
  lines-next line (ok lines) buf = ap ok (simp append_assoc)

  write_lines-content :
      (buf : Text) (rows : List Row)
      → write_lines marshal buf rows ≡ (marshal_all rows >>= λ lines. ok (buf ++ lines_text lines))
  unfolding write_lines
  write_lines-content buf [] = ap ok (sym (append-nil buf))
  write_lines-content buf (row ∷ rows) =
      by_line (marshal row) refl (λ line. write_lines-content (buf ++ line ++ newline ∷ []) rows)
    where
      by_line :
          (r : Result Text)
          → marshal row ≡ r
          → ((line : Text)
              → write_lines marshal (buf ++ line ++ newline ∷ []) rows ≡ (
                  marshal_all rows >>= λ lines.
                  ok ((buf ++ line ++ newline ∷ []) ++ lines_text lines)))
          → write_lines marshal buf (row ∷ rows)
            ≡ (marshal_all (row ∷ rows) >>= λ lines. ok (buf ++ lines_text lines))
      by_line (err e) h step = rw (write_lines, h)
      by_line (ok line) h step =
          rw (write_lines, h) (step line ∙ lines-next line (marshal_all rows) buf)

  loaded :
      {A W : Type 0} (c : Client A W) (table : Text) (r : Result (List Text)) (w : W)
      → elim (r >>= λ lines. ok (lines_text lines)) as (λ _. Option Error × W) [
        | err e ↦ (some e, w)
        | ok content ↦ run_job c table content w
      ]
        ≡ elim r as (λ _. Option Error × W) [
          | err e ↦ (some e, w)
          | ok lines ↦ run_job c table (lines_text lines) w
        ]
  loaded c table (err e) w = refl
  loaded c table (ok lines) w = refl

  -- The rows of an insertion are loaded by one job, which gets a line for each of them, in their
  -- order, and by none at all when one of them has no JSON text: the result is then that row's
  -- error.
  pub load_rows-one_job :
      {A W : Type 0} (c : Client A W) (table : Text) (rows : List Row) (w : W)
      → load_rows c marshal table rows w ≡ elim (marshal_all rows) as (λ _. Option Error × W) [
        | err e ↦ (some e, w)
        | ok lines ↦ run_job c table (lines_text lines) w
      ]
  unfolding load_rows
  load_rows-one_job {W = W} c table rows w =
      ap
        (λ r. elim r as (λ _. Option Error × W) [
          | err e ↦ (some e, w)
          | ok content ↦ run_job c table content w
        ])
        (write_lines-content [] rows)
      ∙ loaded c table (marshal_all rows) w
