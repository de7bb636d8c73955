-- ===== src/DatasetSelection/Examples.antt =====
-- The theorems on internal/datasetselection/membership.go at a small repository.
use hfdesk.Base.{◌≡◌, List, [], ◌∷◌, Bytes, codes, length, bounded_somewhere}
use hfdesk.DatasetSelection.{recognize}
use hfdesk.DatasetSelection.Names.{has_split_token, is_split_delimiter}
use hfdesk.DatasetSelection.Tokens.{has_split_token_eq}
use hfdesk.DatasetSelection.Evidences.{
  Agrees, recognize-Agrees, indexes, count_up, recognize-indexes,
}

abbrev repository : List Bytes
repository =
    codes "README.md"
    ∷ codes "data/train-00000.parquet"
    ∷ codes "data/de/part.csv"
    ∷ codes "notes.txt"
    ∷ codes "train/test.csv"
    ∷ []

recognize-Agrees_example : Agrees (recognize repository)
recognize-Agrees_example = recognize-Agrees repository

recognize-indexes_example : indexes (recognize repository).evidence ≡ count_up 0 (length repository)
recognize-indexes_example = recognize-indexes repository

-- The second occurrence is the bounded one.
has_split_token_eq_example :
    has_split_token (codes "pretrain_train.csv") (codes "train")
    ≡ bounded_somewhere is_split_delimiter (codes "train") [] (codes "pretrain_train.csv")
has_split_token_eq_example = has_split_token_eq (codes "pretrain_train.csv") b't' (codes "rain")
