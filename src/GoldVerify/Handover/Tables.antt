-- ===== src/GoldVerify/Handover/Tables.antt =====
-- The exporter of internal/bq/client.go over two tables, with a reader of their texts.
use go_drive_etl.Common.{
  none, false, [], ◌∷◌, ok, err, Text, codes, List, Result, ◌≡◌, refl, sym, inl, inr, if◌then◌else◌,
  text_eq, canceled, ◌==◌,
}
use mathlib.Core.Path.{subst}
use go_drive_etl.Services.{Source}
use go_drive_etl.Bq.{
  Client, done, matches_table, export_query, export_rows, export_table_csv, write_rows,
}
use go_drive_etl.Csv.{write_record, write_field}
use go_drive_etl.GoldVerify.{check_csv, check_records}
use go_drive_etl.GoldVerify.Handover.{daily, latest, IsGold, SourceLaws}
use go_drive_etl.GoldVerify.Handover.Positions.{Entry}

-- Two empty tables.
abbrev pub six : List Text
six = codes "a" ∷ codes "b" ∷ codes "c" ∷ codes "d" ∷ codes "e" ∷ codes "f" ∷ []

abbrev pub seven : List Text
seven = codes "g" ∷ six

abbrev pub bq : Client Text (List Entry)
bq = record {
  bq = record {
    project = codes "p";
    read = λ query w. (
      ok (record {
        schema =
            if text_eq query (codes "SELECT * FROM `p.g.mart_ingestion_daily` ORDER BY 1")
            then six
            else seven;
        rows = done;
      }),
      w,
    );
    run = λ dataset table content w. (err canceled, w);
  };
  dataset = codes "s";
  export_dataset = codes "g";
}

abbrev pub csv : Text → Text
csv table = if text_eq table daily then codes "a,b,c,d,e,f\n" else codes "g,a,b,c,d,e,f\n"

abbrev pub source : Source (List Entry)
source = record { export_table_csv = λ table w. export_table_csv bq (λ s. s) table w }

pub source-SourceLaws : SourceLaws source csv
unfolding export_table_csv export_rows write_rows export_query matches_table write_record
    write_field
source-SourceLaws = record { export_ok = λ table w gold. exported table w gold }
  where
    exported :
        (table : Text) (w : List Entry)
        → IsGold table
        → source.export_table_csv table w ≡ (ok (csv table), w)
    exported table w (inl e) =
        subst (λ (t : Text). source.export_table_csv t w ≡ (ok (csv t), w)) (sym e) refl
    exported table w (inr e) =
        subst (λ (t : Text). source.export_table_csv t w ≡ (ok (csv t), w)) (sym e) refl

abbrev pub read_csv : Text → Result (List (List Text))
read_csv [] = ok []
read_csv (c ∷ s) = if c == b'a' then ok (six ∷ six ∷ []) else ok (seven ∷ seven ∷ [])

pub daily_accepted : (check_csv read_csv daily (csv daily) (csv daily) false).1 ≡ none
unfolding check_csv check_records
daily_accepted = refl

pub latest_accepted : (check_csv read_csv latest (csv latest) (csv latest) false).1 ≡ none
unfolding check_csv check_records
latest_accepted = refl
