-- ===== src/Redis/Rdb/ListPack/Whole.antt =====
-- `read_list_pack` reads the list pack format.

use cubetran_core.Prelude.{List, [], list_eq, nat_eq, option_eq, pair_eq, ℕ, ◌++◌, ◌∷◌}
use cubetran_core.Redis.Rdb.ListPack.RoundTrip.{Entry}

-- the entries one after the other, and their texts
pub data Entries : List ℕ → List (List ℕ) → Type 0 where
  no_entry : Entries [] []
  one_more :
      (bytes text more : List ℕ) (texts : List (List ℕ))
      → Entry bytes text
      → Entries more texts
      → Entries (bytes ++ more) (text ∷ texts)
