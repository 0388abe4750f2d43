-- ===== src/Enums/Currency/ZeroDecimal.antt =====
-- `Currency::is_zero_decimal_currency` of crates/common_enums/src/enums.rs.
use mercado.Enums.Currency.Types.{Currency}
use mercado.Prelude.{Bool, true, false}

unfoldable pub is_zero_decimal_currency : Currency → Bool
is_zero_decimal_currency Currency.bif = true
is_zero_decimal_currency Currency.clp = true
is_zero_decimal_currency Currency.djf = true
is_zero_decimal_currency Currency.gnf = true
is_zero_decimal_currency Currency.jpy = true
is_zero_decimal_currency Currency.kmf = true
is_zero_decimal_currency Currency.krw = true
is_zero_decimal_currency Currency.mga = true
is_zero_decimal_currency Currency.pyg = true
is_zero_decimal_currency Currency.rwf = true
is_zero_decimal_currency Currency.ugx = true
is_zero_decimal_currency Currency.vnd = true
is_zero_decimal_currency Currency.vuv = true
is_zero_decimal_currency Currency.xaf = true
is_zero_decimal_currency Currency.xof = true
is_zero_decimal_currency Currency.xpf = true
is_zero_decimal_currency Currency.aed = false
is_zero_decimal_currency Currency.all = false
is_zero_decimal_currency Currency.amd = false
is_zero_decimal_currency Currency.ang = false
is_zero_decimal_currency Currency.aoa = false
is_zero_decimal_currency Currency.ars = false
is_zero_decimal_currency Currency.aud = false
is_zero_decimal_currency Currency.awg = false
is_zero_decimal_currency Currency.azn = false
is_zero_decimal_currency Currency.bam = false
is_zero_decimal_currency Currency.bbd = false
is_zero_decimal_currency Currency.bdt = false
is_zero_decimal_currency Currency.bgn = false
is_zero_decimal_currency Currency.bhd = false
is_zero_decimal_currency Currency.bmd = false
is_zero_decimal_currency Currency.bnd = false
is_zero_decimal_currency Currency.bob = false
is_zero_decimal_currency Currency.brl = false
is_zero_decimal_currency Currency.bsd = false
is_zero_decimal_currency Currency.bwp = false
is_zero_decimal_currency Currency.byn = false
is_zero_decimal_currency Currency.bzd = false
is_zero_decimal_currency Currency.cad = false
is_zero_decimal_currency Currency.chf = false
is_zero_decimal_currency Currency.cny = false
is_zero_decimal_currency Currency.cop = false
is_zero_decimal_currency Currency.crc = false
is_zero_decimal_currency Currency.cup = false
is_zero_decimal_currency Currency.cve = false
is_zero_decimal_currency Currency.czk = false
is_zero_decimal_currency Currency.dkk = false
is_zero_decimal_currency Currency.dop = false
is_zero_decimal_currency Currency.dzd = false
is_zero_decimal_currency Currency.egp = false
is_zero_decimal_currency Currency.etb = false
is_zero_decimal_currency Currency.eur = false
is_zero_decimal_currency Currency.fjd = false
is_zero_decimal_currency Currency.fkp = false
is_zero_decimal_currency Currency.gbp = false
is_zero_decimal_currency Currency.gel = false
is_zero_decimal_currency Currency.ghs = false
is_zero_decimal_currency Currency.gip = false
is_zero_decimal_currency Currency.gmd = false
is_zero_decimal_currency Currency.gtq = false
is_zero_decimal_currency Currency.gyd = false
is_zero_decimal_currency Currency.hkd = false
is_zero_decimal_currency Currency.hnl = false
is_zero_decimal_currency Currency.hrk = false
is_zero_decimal_currency Currency.htg = false
is_zero_decimal_currency Currency.huf = false
is_zero_decimal_currency Currency.idr = false
is_zero_decimal_currency Currency.ils = false
is_zero_decimal_currency Currency.inr = false
is_zero_decimal_currency Currency.iqd = false
is_zero_decimal_currency Currency.jmd = false
is_zero_decimal_currency Currency.jod = false
is_zero_decimal_currency Currency.kes = false
is_zero_decimal_currency Currency.kgs = false
is_zero_decimal_currency Currency.khr = false
is_zero_decimal_currency Currency.kwd = false
is_zero_decimal_currency Currency.kyd = false
is_zero_decimal_currency Currency.kzt = false
is_zero_decimal_currency Currency.lak = false
is_zero_decimal_currency Currency.lbp = false
is_zero_decimal_currency Currency.lkr = false
is_zero_decimal_currency Currency.lrd = false
is_zero_decimal_currency Currency.lsl = false
is_zero_decimal_currency Currency.lyd = false
is_zero_decimal_currency Currency.mad = false
is_zero_decimal_currency Currency.mdl = false
is_zero_decimal_currency Currency.mkd = false
is_zero_decimal_currency Currency.mmk = false
is_zero_decimal_currency Currency.mnt = false
is_zero_decimal_currency Currency.mop = false
is_zero_decimal_currency Currency.mru = false
is_zero_decimal_currency Currency.mur = false
is_zero_decimal_currency Currency.mvr = false
is_zero_decimal_currency Currency.mwk = false
is_zero_decimal_currency Currency.mxn = false
is_zero_decimal_currency Currency.myr = false
is_zero_decimal_currency Currency.mzn = false
is_zero_decimal_currency Currency.nad = false
is_zero_decimal_currency Currency.ngn = false
is_zero_decimal_currency Currency.nio = false
is_zero_decimal_currency Currency.nok = false
is_zero_decimal_currency Currency.npr = false
is_zero_decimal_currency Currency.nzd = false
is_zero_decimal_currency Currency.omr = false
is_zero_decimal_currency Currency.pab = false
is_zero_decimal_currency Currency.pen = false
is_zero_decimal_currency Currency.pgk = false
is_zero_decimal_currency Currency.php = false
is_zero_decimal_currency Currency.pkr = false
is_zero_decimal_currency Currency.pln = false
is_zero_decimal_currency Currency.qar = false
is_zero_decimal_currency Currency.ron = false
is_zero_decimal_currency Currency.rsd = false
is_zero_decimal_currency Currency.rub = false
is_zero_decimal_currency Currency.sar = false
is_zero_decimal_currency Currency.sbd = false
is_zero_decimal_currency Currency.scr = false
is_zero_decimal_currency Currency.sek = false
is_zero_decimal_currency Currency.sgd = false
is_zero_decimal_currency Currency.shp = false
is_zero_decimal_currency Currency.sle = false
is_zero_decimal_currency Currency.sll = false
is_zero_decimal_currency Currency.sos = false
is_zero_decimal_currency Currency.srd = false
is_zero_decimal_currency Currency.ssp = false
is_zero_decimal_currency Currency.stn = false
is_zero_decimal_currency Currency.svc = false
is_zero_decimal_currency Currency.szl = false
is_zero_decimal_currency Currency.thb = false
is_zero_decimal_currency Currency.tnd = false
is_zero_decimal_currency Currency.top = false
is_zero_decimal_currency Currency.try = false
is_zero_decimal_currency Currency.ttd = false
is_zero_decimal_currency Currency.twd = false
is_zero_decimal_currency Currency.tzs = false
is_zero_decimal_currency Currency.uah = false
is_zero_decimal_currency Currency.usd = false
is_zero_decimal_currency Currency.uyu = false
is_zero_decimal_currency Currency.uzs = false
is_zero_decimal_currency Currency.ves = false
is_zero_decimal_currency Currency.wst = false
is_zero_decimal_currency Currency.xcd = false
is_zero_decimal_currency Currency.yer = false
is_zero_decimal_currency Currency.zar = false
is_zero_decimal_currency Currency.zmw = false
