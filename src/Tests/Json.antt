-- ===== src/Tests/Json.antt =====
-- The theorems on the parser of JSON and on the reader of the configuration applied to documents.
use tokenjuice_hermes.Common
use tokenjuice_hermes.Common.{
  Text, codes, int_of_text, ℕ, ◌≡◌, ◌*◌, ◌+◌, refl, pos, negsuc, true, false, some, List, [], ◌∷◌,
  leb, length, has_key, text_eq, number_text, digits_text, arith, put, strip, any,
}
use tokenjuice_hermes.HermesConfig.Blocks.{
  YamlBlock, done, note, plain, nested, written, parse_yaml_mapping-written,
}
use tokenjuice_hermes.HermesConfig.{parse_yaml_mapping, parse_yaml_scalar}
use tokenjuice_hermes.Json.{
  JsonValue, JsonObject, nil, cons, end, field, scalar, array, object, null, bool, int, float, str,
  fields_of,
}
use tokenjuice_hermes.Json.Ends.{Ends, parse_value-Ends}
use tokenjuice_hermes.Json.Parser.{NumberRuntime, parse_value, parse_json, number}
use tokenjuice_hermes.Json.Printer.{print, IsPrintable}
use tokenjuice_hermes.Json.RoundTrip.{parse_json-print}

-- The digits of ASCII are the only ones, and every literal is a float.
abbrev runtime : NumberRuntime
runtime = record {
  is_digit = Common.is_digit;
  int_of = int_of_text;
  has_float = λ raw. true;
  is_digit-ascii = λ c small. refl;
  int_of-ascii = λ s small. refl;
}

abbrev document : JsonValue
document = object (
    field (codes "exit") (scalar (int (negsuc 11))) (
      field (codes "out\"put")
        (array (cons (scalar (str (codes "a\\b"))) (cons (scalar null) (cons (array nil) nil))))
        (field (codes "seconds") (scalar (float (codes "1.5e3"))) end)))

document-IsPrintable : IsPrintable runtime document
unfolding IsPrintable has_key text_eq number number_text digits_text
document-IsPrintable = (refl, refl, (refl, (tt, (tt, (tt, tt))), (refl, refl, tt)))

parse_json-print_example : parse_json runtime (print document []) ≡ some document
parse_json-print_example = parse_json-print runtime document document-IsPrintable

abbrev cut_short : Text
cut_short = codes "{\"a\": [1, {\"b\": tr"

parse_value-Ends_example : Ends cut_short (parse_value runtime 41 cut_short)
parse_value-Ends_example = parse_value-Ends runtime 41 cut_short (omega arith)

-- A document with a block of three lines, the first of which has no key, under its first key.
abbrev config_yaml : YamlBlock
config_yaml =
    nested (codes "plugins") 1
      (note (codes "words")
        (nested (codes "entries") 0 done (plain (codes "mode") (codes " 'head'") done)))
      (plain (codes "tokenjuice_mode") (codes " off") done)

abbrev config_mapping : JsonObject
config_mapping =
    (
      codes "plugins",
      object (
          field (codes "entries") (object end)
            (field (codes "mode") (scalar (str (codes "head"))) end)),
    )
    ∷ (codes "tokenjuice_mode", scalar (bool false))
    ∷ []

parse_yaml_mapping-written_example :
    parse_yaml_mapping runtime 6 0 [] (written 1 config_yaml) ≡ some (config_mapping, [])
unfolding parse_yaml_scalar put strip text_eq fields_of
parse_yaml_mapping-written_example = parse_yaml_mapping-written runtime 1 config_yaml (
    unfold strip any in
    (refl, refl, (refl, (refl, refl, tt, (refl, refl, refl, tt))), (refl, refl, refl, tt)))
