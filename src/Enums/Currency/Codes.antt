-- ===== src/Enums/Currency/Codes.antt =====
-- ISO 4217 codes are three digits, and no two currencies share one.
use Prim.Native.Char.{code}
use mercado.Enums.Currency.Types.{Currency}
use mercado.Enums.Currency.Iso4217.{iso_4217}
use mercado.Prelude.{
  List, String, ℕ, Bool, Option, ◌∷◌, ◌≡◌, [], leb, none, some, true, if◌then◌else◌, refl, ◌&&◌,
  false, str_eq, ap, ◌↔◌,
}

abbrev currencies : List Currency
currencies =
    Currency.aed ∷ Currency.all ∷ Currency.amd ∷ Currency.ang ∷ Currency.aoa ∷ Currency.ars
    ∷ Currency.aud ∷ Currency.awg ∷ Currency.azn ∷ Currency.bam ∷ Currency.bbd ∷ Currency.bdt
    ∷ Currency.bgn ∷ Currency.bhd ∷ Currency.bif ∷ Currency.bmd ∷ Currency.bnd ∷ Currency.bob
    ∷ Currency.brl ∷ Currency.bsd ∷ Currency.bwp ∷ Currency.byn ∷ Currency.bzd ∷ Currency.cad
    ∷ Currency.chf ∷ Currency.clp ∷ Currency.cny ∷ Currency.cop ∷ Currency.crc ∷ Currency.cup
    ∷ Currency.cve ∷ Currency.czk ∷ Currency.djf ∷ Currency.dkk ∷ Currency.dop ∷ Currency.dzd
    ∷ Currency.egp ∷ Currency.etb ∷ Currency.eur ∷ Currency.fjd ∷ Currency.fkp ∷ Currency.gbp
    ∷ Currency.gel ∷ Currency.ghs ∷ Currency.gip ∷ Currency.gmd ∷ Currency.gnf ∷ Currency.gtq
    ∷ Currency.gyd ∷ Currency.hkd ∷ Currency.hnl ∷ Currency.hrk ∷ Currency.htg ∷ Currency.huf
    ∷ Currency.idr ∷ Currency.ils ∷ Currency.inr ∷ Currency.iqd ∷ Currency.jmd ∷ Currency.jod
    ∷ Currency.jpy ∷ Currency.kes ∷ Currency.kgs ∷ Currency.khr ∷ Currency.kmf ∷ Currency.krw
    ∷ Currency.kwd ∷ Currency.kyd ∷ Currency.kzt ∷ Currency.lak ∷ Currency.lbp ∷ Currency.lkr
    ∷ Currency.lrd ∷ Currency.lsl ∷ Currency.lyd ∷ Currency.mad ∷ Currency.mdl ∷ Currency.mga
    ∷ Currency.mkd ∷ Currency.mmk ∷ Currency.mnt ∷ Currency.mop ∷ Currency.mru ∷ Currency.mur
    ∷ Currency.mvr ∷ Currency.mwk ∷ Currency.mxn ∷ Currency.myr ∷ Currency.mzn ∷ Currency.nad
    ∷ Currency.ngn ∷ Currency.nio ∷ Currency.nok ∷ Currency.npr ∷ Currency.nzd ∷ Currency.omr
    ∷ Currency.pab ∷ Currency.pen ∷ Currency.pgk ∷ Currency.php ∷ Currency.pkr ∷ Currency.pln
    ∷ Currency.pyg ∷ Currency.qar ∷ Currency.ron ∷ Currency.rsd ∷ Currency.rub ∷ Currency.rwf
    ∷ Currency.sar ∷ Currency.sbd ∷ Currency.scr ∷ Currency.sek ∷ Currency.sgd ∷ Currency.shp
    ∷ Currency.sle ∷ Currency.sll ∷ Currency.sos ∷ Currency.srd ∷ Currency.ssp ∷ Currency.stn
    ∷ Currency.svc ∷ Currency.szl ∷ Currency.thb ∷ Currency.tnd ∷ Currency.top ∷ Currency.try
    ∷ Currency.ttd ∷ Currency.twd ∷ Currency.tzs ∷ Currency.uah ∷ Currency.ugx ∷ Currency.usd
    ∷ Currency.uyu ∷ Currency.uzs ∷ Currency.ves ∷ Currency.vnd ∷ Currency.vuv ∷ Currency.wst
    ∷ Currency.xaf ∷ Currency.xcd ∷ Currency.xof ∷ Currency.xpf ∷ Currency.yer ∷ Currency.zar
    ∷ Currency.zmw ∷ []

first_with : String → List Currency → Option Currency
first_with code [] = none
first_with code (c ∷ cs) =
    let rest = first_with code cs in if str_eq (iso_4217 c) code then some c else rest

first_with-iso_4217 : (c : Currency) → first_with (iso_4217 c) currencies ≡ some c
unfolding first_with iso_4217
first_with-iso_4217 Currency.aed = refl
first_with-iso_4217 _ = refl

abbrev pub is_digit : ℕ → Bool
is_digit c = leb b'0' c && leb c b'9'

abbrev pub is_three_digits : String → Bool
is_three_digits (String.◌∷◌ a (String.◌∷◌ b (String.◌∷◌ c String.[]))) =
    is_digit (code a) && is_digit (code b) && is_digit (code c)
is_three_digits _ = false

three_digits : (c : Currency) → is_three_digits (iso_4217 c) ≡ true
unfolding iso_4217
three_digits Currency.aed = refl
three_digits _ = refl

same_code : (a b : Currency) → iso_4217 a ≡ iso_4217 b → a ≡ b
same_code a b e =
    cc (first_with-iso_4217 a, first_with-iso_4217 b, ap (λ code. first_with code currencies) e)

-- The ISO 4217 code of a currency is three decimal digits, and two currencies have the same code exactly if they are the same.
pub iso_4217_iff :
    (a b : Currency) → (is_three_digits (iso_4217 a) ≡ true) × ((iso_4217 a ≡ iso_4217 b) ↔ (a ≡ b))
iso_4217_iff a b = (three_digits a, (same_code a b, ap iso_4217))
