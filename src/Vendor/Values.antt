-- ===== src/Vendor/Values.antt =====
-- `uniqueValue` of scripts/vendorcheck/main.go, on what a json.Decoder's `JsonToken` gives: `malformed` is an
-- error other than the end of the input, and `comma_at_end` is a comma, where one may stand in an object or
-- an array, with nothing after it, at which `Token` gives io.EOF although `More` holds. A map is the list of its members, in the order in which they
-- were read. The recursion is on fuel, two calls for each token.
pub mod Written
pub mod Readings
pub mod Sound
pub mod Exact
pub mod Ends
use platform_orchestrator_ru.Base.{
  ℕ, zero, suc, String, List, [], ◌∷◌, Option, none, some, Bool, if◌then◌else◌, str_eq, ltb, ◌==◌,
  ◌*◌, length,
}
use platform_orchestrator_ru.Runner.Json.{was_seen}

pub data JsonToken : Type 0 where
  open_object close_object open_array close_array malformed comma_at_end : JsonToken
  text scalar : String → JsonToken

-- A number, `true`, `false` or `null` is its text.
mutual
  pub data Value : Type 0 where
    atom quoted : String → Value
    object : Members → Value
    array : Elements → Value

  pub data Members : Type 0 where
    no_members : Members
    member : String → Value → Members → Members

  pub data Elements : Type 0 where
    no_elements : Elements
    element : Value → Elements → Elements

-- A value with the tokens after it, `io.EOF`, or another error.
pub data Reading (A : Type 0) : Type 0 where
  eof : Reading A
  failed : (message : String) → Reading A
  done : A → (rest : List JsonToken) → Reading A

module _ {A B : Type 0} where
  abbrev pub and_read : Reading A → (A → List JsonToken → Reading B) → Reading B
  and_read eof k = eof
  and_read (failed message) k = failed message
  and_read (done a rest) k = k a rest

  abbrev pub map_read : (A → B) → Reading A → Reading B
  map_read f eof = eof
  map_read f (failed message) = failed message
  map_read f (done a rest) = done (f a) rest

abbrev pub within_depth : ℕ → Reading Value → Reading Value
within_depth depth r = if ltb 64 depth then failed "scanner JSON exceeds nesting bound" else r

abbrev pub unless_exists : Bool → Reading Members → Reading Members
unless_exists exists r = if exists then failed "duplicate JSON object key" else r

-- `depth` of the members and elements is that of their values, and `seen` are the keys of the map so far.
unfoldable mutual
  pub unique_value : (fuel depth : ℕ) → List JsonToken → Reading Value
  unique_value zero depth tokens = failed "out of fuel"
  unique_value (suc fuel) depth [] =
      within_depth depth (if depth == 0 then eof else failed "unexpected EOF")
  unique_value (suc fuel) depth (malformed ∷ rest) = within_depth depth (failed "syntax error")
  unique_value (suc fuel) depth (comma_at_end ∷ rest) =
      within_depth depth (failed (if depth == 0 then "syntax error" else "unexpected EOF"))
  unique_value (suc fuel) depth (open_object ∷ rest) =
      within_depth depth (map_read object (unique_members fuel (suc depth) [] rest))
  unique_value (suc fuel) depth (open_array ∷ rest) =
      within_depth depth (map_read array (unique_elements fuel (suc depth) rest))
  unique_value (suc fuel) depth (close_object ∷ rest) =
      within_depth depth (failed "unexpected closing JSON delimiter")
  unique_value (suc fuel) depth (close_array ∷ rest) =
      within_depth depth (failed "unexpected closing JSON delimiter")
  unique_value (suc fuel) depth (text s ∷ rest) = within_depth depth (done (quoted s) rest)
  unique_value (suc fuel) depth (scalar s ∷ rest) = within_depth depth (done (atom s) rest)

  pub unique_members : (fuel depth : ℕ) (seen : List String) → List JsonToken → Reading Members
  unique_members zero depth seen tokens = failed "out of fuel"
  unique_members (suc fuel) depth seen [] = failed "unexpected EOF"
  unique_members (suc fuel) depth seen (close_object ∷ rest) = done no_members rest
  unique_members (suc fuel) depth seen (text key ∷ rest) = unless_exists (was_seen key seen) (
      and_read (unique_value fuel depth rest)
        (λ v after. map_read (member key v) (unique_members fuel depth (key ∷ seen) after)))
  unique_members (suc fuel) depth seen (comma_at_end ∷ rest) = eof
  unique_members (suc fuel) depth seen (malformed ∷ rest) = failed "syntax error"
  unique_members (suc fuel) depth seen (close_array ∷ rest) = failed "syntax error"
  unique_members (suc fuel) depth seen (_ ∷ rest) = failed "invalid JSON object key"

  pub unique_elements : (fuel depth : ℕ) → List JsonToken → Reading Elements
  unique_elements zero depth tokens = failed "out of fuel"
  unique_elements (suc fuel) depth [] = failed "unexpected EOF"
  unique_elements (suc fuel) depth (close_object ∷ rest) = failed "syntax error"
  unique_elements (suc fuel) depth (close_array ∷ rest) = done no_elements rest
  unique_elements (suc fuel) depth (token ∷ rest) =
      and_read (unique_value fuel depth (token ∷ rest))
        (λ v after. map_read (element v) (unique_elements fuel depth after))

-- `uniqueValue(d, 0)` for a decoder with these tokens left.
unfoldable pub next_value : List JsonToken → Reading Value
next_value tokens = unique_value (suc (2 * length tokens)) 0 tokens
