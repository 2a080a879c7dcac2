-- ===== src/Redis/KeyParser.antt =====
-- dt-common/src/meta/redis/command: key_parser.rs and cmd_meta.rs. The table of the commands, which
-- the code reads from a JSON text, is the parser's state; a `String` is its bytes.
pub mod Laws
pub mod Slots
use cubetran_core.Prelude.{
  Bool, List, Map, Option, Result, Text, [], codes, contains, err, get_elem?, if◌then◌else◌, leb,
  length, list_eq, lookup, ltb_ℤ, nat_eq, negsuc, none, not, ok, option_eq, pair_eq, panic, pos,
  pos_part, redis_cmd_error, some, suc, unwrap, zero, ℕ, ℤ, ◌++◌, ◌+ℤ◌, ◌+◌, ◌-ℤ◌, ◌-◌, ◌/◌, ◌==◌,
  ◌>>=◌, ◌>>◌, ◌^◌, ◌||◌, ◌∷◌, ◌≟◌,
}
use cubetran_core.Redis.Crc.{crc16}
use cubetran_core.Redis.Decimal.{parse_digits}
use Prim.Native.Nat.{bit_and}
use mathlib.Core.Bool.{◌||◌, ◌&&◌}

pub record KeySpec : Type 0 where
  pub begin_search_type : Text
  pub begin_search_index : ℤ
  pub begin_search_keyword : Text
  pub begin_search_start_from : ℤ
  pub find_keys_type : Text
  pub find_keys_range_last_key : ℤ
  pub find_keys_range_key_step : ℕ
  pub find_keys_range_limit : ℤ
  pub find_keys_keynum_index : ℤ
  pub find_keys_keynum_first_key : ℤ
  pub find_keys_keynum_key_step : ℕ

pub record CmdMeta : Type 0 where
  pub name : Text
  pub group : Text
  pub key_spec : List KeySpec

pub record KeyParser : Type 0 where
  pub container_cmds : List Text
  pub cmd_metas : Map Text CmdMeta

-- `keys` and `keys_indexes`
pub record Found : Type 0 where
  pub keys : List Text
  pub keys_indexes : List ℕ

-- `argv[idx as usize]`, pushed with `idx as usize + 1`. A negative index is out of range.
unfoldable pub push_key : List Text → ℤ → Found → Result Found
push_key argv (negsuc _) found = err panic
push_key argv (pos i) found = elim (get_elem? argv i) [
  | none ↦ err panic
  | some key ↦
      ok (record { keys = found.keys ++ key ∷ []; keys_indexes = found.keys_indexes ++ suc i ∷ [] })
]

abbrev leb_ℤ : ℤ → ℤ → Bool
leb_ℤ a b = not (ltb_ℤ b a)

-- how many indexes `(begin..=last).step_by(step)` has
abbrev pub range_count : ℤ → ℤ → ℕ → ℕ
range_count begin last step = elim (last -ℤ begin) [ pos n ↦ n / step + 1 | negsuc _ ↦ 0 ]

-- the loop over a range of `n` indexes from `idx` on, with `limit_count`
unfoldable pub push_range : List Text → ℕ → ℤ → ℕ → ℤ → Found → Result Found
push_range argv zero idx step limit_count found = ok found
push_range argv (suc n) idx step limit_count found = do
  found' ← push_key argv idx found
  let limit_count' = limit_count -ℤ pos 1
  let rest = push_range argv n (idx +ℤ pos step) step limit_count' found'
  if leb_ℤ limit_count' (pos 0) then ok found' else rest

-- the same without a limit
unfoldable pub push_keys : List Text → ℕ → ℤ → ℕ → Found → Result Found
push_keys argv zero idx step found = ok found
push_keys argv (suc n) idx step found = do
  found' ← push_key argv idx found
  push_keys argv n (idx +ℤ pos step) step found'

-- division of an i32 by a positive one, towards 0
abbrev div_ℤ : ℤ → ℕ → ℤ
div_ℤ (pos n) d = pos (n / d)
div_ℤ (negsuc n) d = pos 0 -ℤ pos (suc n / d)

abbrev max_i32 : ℕ
max_i32 = 2 ^ 31 - 1

unfoldable pub find_range : KeySpec → List Text → ℤ → Found → Result Found
find_range spec argv begin found =
    let arg_count = pos (length argv) in
    let last =
      if ltb_ℤ spec.find_keys_range_last_key (pos 0)
      then arg_count +ℤ spec.find_keys_range_last_key
      else begin +ℤ spec.find_keys_range_last_key in
    let limit_count =
      if ltb_ℤ spec.find_keys_range_limit (pos 2)
      then pos max_i32
      else div_ℤ (arg_count -ℤ begin) (pos_part spec.find_keys_range_limit) in
    let step = spec.find_keys_range_key_step in
    if step == 0
    then err panic
    else push_range argv (range_count begin last step) begin step limit_count found

abbrev without_plus : Text → Text
without_plus [] = []
without_plus (c ∷ s) = if c == 43 then s else c ∷ s

-- str::parse::<usize>: digits, after a plus sign or not
unfoldable pub parse_usize : Text → Option ℕ
parse_usize text = elim (without_plus text) [
  | [] ↦ none
  | c ∷ s ↦ parse_digits (2 ^ 64 - 1) (c ∷ s) 0
]

abbrev key_count : Text → Result ℕ
key_count text = unwrap (parse_usize text)

unfoldable pub find_keynum : KeySpec → List Text → ℤ → Found → Result Found
find_keynum spec argv begin found =
    let keynum_idx = begin +ℤ spec.find_keys_keynum_index in
    let first = begin +ℤ spec.find_keys_keynum_first_key in
    let step = spec.find_keys_keynum_key_step in
    if ltb_ℤ keynum_idx (pos 0) || ltb_ℤ (pos (length argv)) keynum_idx
    then err redis_cmd_error
    else do
      text ← unwrap (get_elem? argv (pos_part keynum_idx))
      count ← key_count text
      if step == 0 then err panic else push_keys argv count first step found

unfoldable pub find_keys : KeySpec → List Text → ℤ → Found → Result Found
find_keys spec argv begin found =
    if spec.find_keys_type ≟ codes "range"
    then find_range spec argv begin found
    else if spec.find_keys_type ≟ codes "keynum"
    then find_keynum spec argv begin found
    else err redis_cmd_error

unfoldable pub cmd_meta_of : KeyParser → Text → Result CmdMeta
cmd_meta_of parser cmd_name = elim (lookup cmd_name parser.cmd_metas) [
  | none ↦ err redis_cmd_error
  | some cmd ↦ ok cmd
]

-- `to_uppercase` of the standard library, a table of Unicode, is a parameter.
module _ (to_uppercase : Text → Text) where
  -- The search for the keyword from `idx` on, where `rest` arguments are left.
  unfoldable pub search_up : List Text → Text → ℕ → ℕ → Result ℤ
  search_up argv keyword zero idx = err redis_cmd_error
  search_up argv keyword (suc rest) idx = do
    arg ← unwrap (get_elem? argv idx)
    let later = search_up argv keyword rest (idx + 1)
    if to_uppercase arg ≟ keyword then ok (pos (idx + 1)) else later

  -- The search in reverse order, which does not look at argument 0.
  unfoldable pub search_down : List Text → Text → ℕ → Result ℤ
  search_down argv keyword zero = err redis_cmd_error
  search_down argv keyword (suc i) = do
    arg ← unwrap (get_elem? argv (suc i))
    let earlier = search_down argv keyword i
    if to_uppercase arg ≟ keyword then ok (pos (suc i + 1)) else earlier

  unfoldable pub search_keyword : List Text → Text → ℤ → Result ℤ
  search_keyword argv keyword start_from =
      let arg_count = length argv in
      let up = pos_part start_from in
      let down = pos_part (pos arg_count +ℤ start_from) in
      if ltb_ℤ (pos 0) start_from
      then search_up argv keyword (arg_count - up) up
      else if leb arg_count down
      then err redis_cmd_error
      else search_down argv keyword down

  unfoldable pub begin_of : KeySpec → List Text → Result ℤ
  begin_of spec argv =
      if spec.begin_search_type ≟ codes "index"
      then ok spec.begin_search_index
      else if spec.begin_search_type ≟ codes "keyword"
      then search_keyword argv spec.begin_search_keyword spec.begin_search_start_from
      else err redis_cmd_error

  unfoldable pub find_all : List KeySpec → List Text → Found → Result Found
  find_all [] argv found = ok found
  find_all (spec ∷ specs) argv found = do
    begin ← begin_of spec argv
    found' ← find_keys spec argv begin found
    find_all specs argv found'

  -- the name of the command, with that of the subcommand of a container
  unfoldable pub cmd_name_of : KeyParser → List Text → Result Text
  cmd_name_of parser argv = do
    first ← unwrap (get_elem? argv 0)
    let cmd_name = to_uppercase first
    if contains parser.container_cmds cmd_name
        then (do second ← unwrap (get_elem? argv 1); ok (cmd_name ++ 45 ∷ to_uppercase second))
        else ok cmd_name

  abbrev nothing_found : Found
  nothing_found = record { keys = []; keys_indexes = [] }

  -- The command's name, its group, its keys and their indexes.
  unfoldable pub parse_key_from_argv :
      KeyParser → List Text → Result (Text × Text × List Text × List ℕ)
  parse_key_from_argv parser argv = do
    cmd_name ← cmd_name_of parser argv
    cmd ← cmd_meta_of parser cmd_name
    found ← find_all cmd.key_spec argv nothing_found
    ok (cmd_name, cmd.group, found.keys, found.keys_indexes)

-- the bytes before the first '}'
unfoldable pub up_to_close : List ℕ → Option (List ℕ)
up_to_close [] = none
up_to_close (b ∷ bytes) =
    let rest = up_to_close bytes in
    if b == 125 then some [] else elim rest [ none ↦ none | some tag ↦ some (b ∷ tag) ]

-- what stands between the first '{' that a '}' follows and that '}'
unfoldable pub hash_tag : List ℕ → Option (List ℕ)
hash_tag [] = none
hash_tag (b ∷ bytes) =
    let later = hash_tag bytes in
    if b == 123 then elim (up_to_close bytes) [ none ↦ later | some tag ↦ some tag ] else later

unfoldable pub slot_of : List ℕ → ℕ
slot_of bytes = bit_and (crc16 bytes) 0x3fff

abbrev tagged_slot : Option (List ℕ) → List ℕ → ℕ
tagged_slot none key = slot_of key
tagged_slot (some []) key = slot_of key
tagged_slot (some (b ∷ tag)) key = slot_of (b ∷ tag)

unfoldable pub calc_slot : List ℕ → ℕ
calc_slot key = tagged_slot (hash_tag key) key
