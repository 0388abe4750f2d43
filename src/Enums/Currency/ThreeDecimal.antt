-- ===== src/Enums/Currency/ThreeDecimal.antt =====
-- `Currency::is_three_decimal_currency` of crates/common_enums/src/enums.rs.
use mercado.Enums.Currency.Types.{Currency}
use mercado.Prelude.{Bool, true, false}

unfoldable pub is_three_decimal_currency : Currency → Bool
is_three_decimal_currency Currency.bhd = true
is_three_decimal_currency Currency.iqd = true
is_three_decimal_currency Currency.jod = true
is_three_decimal_currency Currency.kwd = true
is_three_decimal_currency Currency.lyd = true
is_three_decimal_currency Currency.omr = true
is_three_decimal_currency Currency.tnd = true
is_three_decimal_currency Currency.aed = false
is_three_decimal_currency Currency.all = false
is_three_decimal_currency Currency.amd = false
is_three_decimal_currency Currency.aoa = false
is_three_decimal_currency Currency.ang = false
is_three_decimal_currency Currency.ars = false
is_three_decimal_currency Currency.aud = false
is_three_decimal_currency Currency.awg = false
is_three_decimal_currency Currency.azn = false
is_three_decimal_currency Currency.bam = false
is_three_decimal_currency Currency.bbd = false
is_three_decimal_currency Currency.bdt = false
is_three_decimal_currency Currency.bgn = false
is_three_decimal_currency Currency.bif = false
is_three_decimal_currency Currency.bmd = false
is_three_decimal_currency Currency.bnd = false
is_three_decimal_currency Currency.bob = false
is_three_decimal_currency Currency.brl = false
is_three_decimal_currency Currency.bsd = false
is_three_decimal_currency Currency.bwp = false
is_three_decimal_currency Currency.byn = false
is_three_decimal_currency Currency.bzd = false
is_three_decimal_currency Currency.cad = false
is_three_decimal_currency Currency.chf = false
is_three_decimal_currency Currency.clp = false
is_three_decimal_currency Currency.cny = false
is_three_decimal_currency Currency.cop = false
is_three_decimal_currency Currency.crc = false
is_three_decimal_currency Currency.cup = false
is_three_decimal_currency Currency.cve = false
is_three_decimal_currency Currency.czk = false
is_three_decimal_currency Currency.djf = false
is_three_decimal_currency Currency.dkk = false
is_three_decimal_currency Currency.dop = false
is_three_decimal_currency Currency.dzd = false
is_three_decimal_currency Currency.egp = false
is_three_decimal_currency Currency.etb = false
is_three_decimal_currency Currency.eur = false
is_three_decimal_currency Currency.fjd = false
is_three_decimal_currency Currency.fkp = false
is_three_decimal_currency Currency.gbp = false
is_three_decimal_currency Currency.gel = false
is_three_decimal_currency Currency.ghs = false
is_three_decimal_currency Currency.gip = false
is_three_decimal_currency Currency.gmd = false
is_three_decimal_currency Currency.gnf = false
is_three_decimal_currency Currency.gtq = false
is_three_decimal_currency Currency.gyd = false
is_three_decimal_currency Currency.hkd = false
is_three_decimal_currency Currency.hnl = false
is_three_decimal_currency Currency.hrk = false
is_three_decimal_currency Currency.htg = false
is_three_decimal_currency Currency.huf = false
is_three_decimal_currency Currency.idr = false
is_three_decimal_currency Currency.ils = false
is_three_decimal_currency Currency.inr = false
is_three_decimal_currency Currency.jmd = false
is_three_decimal_currency Currency.jpy = false
is_three_decimal_currency Currency.kes = false
is_three_decimal_currency Currency.kgs = false
is_three_decimal_currency Currency.khr = false
is_three_decimal_currency Currency.kmf = false
is_three_decimal_currency Currency.krw = false
is_three_decimal_currency Currency.kyd = false
is_three_decimal_currency Currency.kzt = false
is_three_decimal_currency Currency.lak = false
is_three_decimal_currency Currency.lbp = false
is_three_decimal_currency Currency.lkr = false
is_three_decimal_currency Currency.lrd = false
is_three_decimal_currency Currency.lsl = false
is_three_decimal_currency Currency.mad = false
is_three_decimal_currency Currency.mdl = false
is_three_decimal_currency Currency.mga = false
is_three_decimal_currency Currency.mkd = false
is_three_decimal_currency Currency.mmk = false
is_three_decimal_currency Currency.mnt = false
is_three_decimal_currency Currency.mop = false
is_three_decimal_currency Currency.mru = false
is_three_decimal_currency Currency.mur = false
is_three_decimal_currency Currency.mvr = false
is_three_decimal_currency Currency.mwk = false
is_three_decimal_currency Currency.mxn = false
is_three_decimal_currency Currency.myr = false
is_three_decimal_currency Currency.mzn = false
is_three_decimal_currency Currency.nad = false
is_three_decimal_currency Currency.ngn = false
is_three_decimal_currency Currency.nio = false
is_three_decimal_currency Currency.nok = false
is_three_decimal_currency Currency.npr = false
is_three_decimal_currency Currency.nzd = false
is_three_decimal_currency Currency.pab = false
is_three_decimal_currency Currency.pen = false
is_three_decimal_currency Currency.pgk = false
is_three_decimal_currency Currency.php = false
is_three_decimal_currency Currency.pkr = false
is_three_decimal_currency Currency.pln = false
is_three_decimal_currency Currency.pyg = false
is_three_decimal_currency Currency.qar = false
is_three_decimal_currency Currency.ron = false
is_three_decimal_currency Currency.rsd = false
is_three_decimal_currency Currency.rub = false
is_three_decimal_currency Currency.rwf = false
is_three_decimal_currency Currency.sar = false
is_three_decimal_currency Currency.sbd = false
is_three_decimal_currency Currency.scr = false
is_three_decimal_currency Currency.sek = false
is_three_decimal_currency Currency.sgd = false
is_three_decimal_currency Currency.shp = false
is_three_decimal_currency Currency.sle = false
is_three_decimal_currency Currency.sll = false
is_three_decimal_currency Currency.sos = false
is_three_decimal_currency Currency.srd = false
is_three_decimal_currency Currency.ssp = false
is_three_decimal_currency Currency.stn = false
is_three_decimal_currency Currency.svc = false
is_three_decimal_currency Currency.szl = false
is_three_decimal_currency Currency.thb = false
is_three_decimal_currency Currency.top = false
is_three_decimal_currency Currency.try = false
is_three_decimal_currency Currency.ttd = false
is_three_decimal_currency Currency.twd = false
is_three_decimal_currency Currency.tzs = false
is_three_decimal_currency Currency.uah = false
is_three_decimal_currency Currency.ugx = false
is_three_decimal_currency Currency.usd = false
is_three_decimal_currency Currency.uyu = false
is_three_decimal_currency Currency.uzs = false
is_three_decimal_currency Currency.ves = false
is_three_decimal_currency Currency.vnd = false
is_three_decimal_currency Currency.vuv = false
is_three_decimal_currency Currency.wst = false
is_three_decimal_currency Currency.xaf = false
is_three_decimal_currency Currency.xcd = false
is_three_decimal_currency Currency.xpf = false
is_three_decimal_currency Currency.xof = false
is_three_decimal_currency Currency.yer = false
is_three_decimal_currency Currency.zar = false
is_three_decimal_currency Currency.zmw = false
