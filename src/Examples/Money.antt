-- ===== src/Examples/Money.antt =====
-- The cases of tests/unit/test_money.py.
use ocr.Base.{◌≡◌, refl, none, some}
use ocr.Base.Int.{pos, negsuc}
use ocr.Base.Text.{codes}
use ocr.Base.{arith}
use ocr.Extraction.Money.{leading, following, parse_money, format_money}
use ocr.Extraction.Money.RoundTrip.{parse_money-format_money}

grouped : parse_money (codes "27,800") ≡ some (pos 27800)
unfolding parse_money
grouped = refl

labelled : parse_money (codes "TOTAL: 27,800") ≡ some (pos 27800)
unfolding parse_money
labelled = refl

rupiah : parse_money (codes "rp 169.825") ≡ some (pos 169825)
unfolding parse_money
rupiah = refl

negative : parse_money (codes "-5.000") ≡ some (negsuc 4999)
unfolding parse_money
negative = refl

decimals : parse_money (codes "1.234.567,89") ≡ some (pos 123456789)
unfolding parse_money
decimals = refl

spaced : parse_money (codes "(100 000)") ≡ some (pos 100000)
unfolding parse_money
spaced = refl

no_digits : parse_money (codes "no digits here") ≡ none
unfolding parse_money
no_digits = refl

formatted : format_money (pos 169825) "IDR" ≡ codes "IDR 169.825"
unfolding format_money
formatted = refl

formatted_negative : format_money (negsuc 4999) "IDR" ≡ codes "-IDR 5.000"
unfolding format_money
formatted_negative = refl

sign_is_lost : parse_money (codes "-IDR 5.000") ≡ some (pos 5000)
unfolding parse_money
sign_is_lost = refl

parse_money-format_money_example :
    parse_money (format_money (negsuc 169824) "IDR") ≡ some (pos 169825)
unfolding leading following
parse_money-format_money_example = parse_money-format_money (negsuc 169824) (omega arith)
