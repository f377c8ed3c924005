-- ===== src/Tests/Headers.antt =====
-- internal/corpus, on the header of one file.
use safenet_arbitration_bot.Base.{◌≡◌, refl, ◌++◌, [], ◌∷◌, List, codes, All, ok, arith}
use safenet_arbitration_bot.Safenet.Rules.{trim_space}
use safenet_arbitration_bot.Corpus.{delimiter, Tag, parse_header, has_blank}
use safenet_arbitration_bot.Corpus.Written.{written, IsTag, parse_header-written}

abbrev some_tags : List Tag
some_tags =
    record { key = codes "outcome"; value = codes "INSECURE" }
    ∷ record { key = codes "rules"; value = codes "R-4.1, R-4.2" }
    ∷ []

tags-IsTag : All IsTag some_tags
unfolding has_blank trim_space
tags-IsTag = (
  record {
    key = refl;
    no_blank = refl;
    no_colon = ground arith;
    key_line = ground arith;
    value_line = ground arith;
    trimmed = refl;
  },
  (
    record {
      key = refl;
      no_blank = refl;
      no_colon = ground arith;
      key_line = ground arith;
      value_line = ground arith;
      trimmed = refl;
    },
    tt,
  ),
)

parse_header-written_example :
    parse_header (delimiter ++ b'\n' ∷ written some_tags (codes "text")) ≡ ok some_tags
parse_header-written_example = parse_header-written some_tags (codes "text") tags-IsTag
