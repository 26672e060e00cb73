-- ===== src/Settings/Tests.antt =====
-- The settings tree of source/imconee/sts.cpp on small texts.
use Prim.Native.Char.{code}
use Prim.Native.String.{String}
use imconee.Common.{ℕ, ◌+◌, ◌≡◌, refl, some, List, [], ◌∷◌, ◌++◌, length, true}
use imconee.Settings.Text.{
  scan, split_end, drop_end, trim_token, rtrim, ltrim, trim, trim_view, ltrim_view, count_blank,
  token_start, token_end,
}
use imconee.Settings.Tree.{
  sts, nil, cons, named, comment, append_element, get, has, put, has_nameless, get_nameless,
  put_nameless, add_comment, add_block, block_of, update,
}
use imconee.Settings.Read.{skip_separators, quoted, read_sts, load, parse_settings}
use imconee.Settings.Store.{store_value, append_value}
use imconee.Settings.Values.{value_of}
use imconee.Settings.Fuel.{load-enough}
use imconee.Settings.RoundTrip.{elements_of, read_sts-store_value}

abbrev codes : String → List ℕ
codes String.[] = []
codes (String.◌∷◌ c s) = code c ∷ codes s

abbrev text : List ℕ
text = codes "a = 1 // one\r\nb = `x``y` {c=2}"

parse_test :
    parse_settings text
    ≡ cons (named (codes "a")) (sts (codes "1") nil) (
        cons comment (sts (codes "// one") nil) (
          cons
            (named (codes "b"))
            (sts (codes "x`y") (cons (named (codes "c")) (sts (codes "2") nil) nil))
            nil))
unfolding scan split_end drop_end trim_token rtrim ltrim trim trim_view ltrim_view count_blank
    token_start token_end append_element get has put has_nameless get_nameless put_nameless
    add_comment add_block block_of update skip_separators quoted read_sts load parse_settings
parse_test = refl

load-enough_example : load (length text + 1 + 7) text nil ≡ load (length text + 1) text nil
load-enough_example = load-enough 7 text nil

read_sts-store_value_example :
    value_of
      (elements_of (
        read_sts
          (load 9)
          (append_value (codes "key") (store_value (codes "x /`y") true) ++ b'\r' ∷ codes "{in=1}")
          nil))
      (codes "key")
    ≡ some (codes "x /`y")
read_sts-store_value_example =
    read_sts-store_value (load 9) b'k' (codes "ey") b'x' (codes " /`y") (codes "{in=1}") true nil
      (refl, (refl, (refl, tt)))
