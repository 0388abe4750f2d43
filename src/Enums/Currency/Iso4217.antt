-- ===== src/Enums/Currency/Iso4217.antt =====
-- `Currency::iso_4217` of crates/common_enums/src/enums.rs.
use mercado.Enums.Currency.Types.{Currency}
use mercado.Prelude.{String}

unfoldable pub iso_4217 : Currency → String
iso_4217 Currency.aed = "784"
iso_4217 Currency.all = "008"
iso_4217 Currency.amd = "051"
iso_4217 Currency.ang = "532"
iso_4217 Currency.aoa = "973"
iso_4217 Currency.ars = "032"
iso_4217 Currency.aud = "036"
iso_4217 Currency.awg = "533"
iso_4217 Currency.azn = "944"
iso_4217 Currency.bam = "977"
iso_4217 Currency.bbd = "052"
iso_4217 Currency.bdt = "050"
iso_4217 Currency.bgn = "975"
iso_4217 Currency.bhd = "048"
iso_4217 Currency.bif = "108"
iso_4217 Currency.bmd = "060"
iso_4217 Currency.bnd = "096"
iso_4217 Currency.bob = "068"
iso_4217 Currency.brl = "986"
iso_4217 Currency.bsd = "044"
iso_4217 Currency.bwp = "072"
iso_4217 Currency.byn = "933"
iso_4217 Currency.bzd = "084"
iso_4217 Currency.cad = "124"
iso_4217 Currency.chf = "756"
iso_4217 Currency.clp = "152"
iso_4217 Currency.cop = "170"
iso_4217 Currency.crc = "188"
iso_4217 Currency.cup = "192"
iso_4217 Currency.cve = "132"
iso_4217 Currency.czk = "203"
iso_4217 Currency.djf = "262"
iso_4217 Currency.dkk = "208"
iso_4217 Currency.dop = "214"
iso_4217 Currency.dzd = "012"
iso_4217 Currency.egp = "818"
iso_4217 Currency.etb = "230"
iso_4217 Currency.eur = "978"
iso_4217 Currency.fjd = "242"
iso_4217 Currency.fkp = "238"
iso_4217 Currency.gbp = "826"
iso_4217 Currency.gel = "981"
iso_4217 Currency.ghs = "936"
iso_4217 Currency.gip = "292"
iso_4217 Currency.gmd = "270"
iso_4217 Currency.gnf = "324"
iso_4217 Currency.gtq = "320"
iso_4217 Currency.gyd = "328"
iso_4217 Currency.hkd = "344"
iso_4217 Currency.hnl = "340"
iso_4217 Currency.htg = "332"
iso_4217 Currency.huf = "348"
iso_4217 Currency.hrk = "191"
iso_4217 Currency.idr = "360"
iso_4217 Currency.ils = "376"
iso_4217 Currency.inr = "356"
iso_4217 Currency.iqd = "368"
iso_4217 Currency.jmd = "388"
iso_4217 Currency.jod = "400"
iso_4217 Currency.jpy = "392"
iso_4217 Currency.kes = "404"
iso_4217 Currency.kgs = "417"
iso_4217 Currency.khr = "116"
iso_4217 Currency.kmf = "174"
iso_4217 Currency.krw = "410"
iso_4217 Currency.kwd = "414"
iso_4217 Currency.kyd = "136"
iso_4217 Currency.kzt = "398"
iso_4217 Currency.lak = "418"
iso_4217 Currency.lbp = "422"
iso_4217 Currency.lkr = "144"
iso_4217 Currency.lrd = "430"
iso_4217 Currency.lsl = "426"
iso_4217 Currency.lyd = "434"
iso_4217 Currency.mad = "504"
iso_4217 Currency.mdl = "498"
iso_4217 Currency.mga = "969"
iso_4217 Currency.mkd = "807"
iso_4217 Currency.mmk = "104"
iso_4217 Currency.mnt = "496"
iso_4217 Currency.mop = "446"
iso_4217 Currency.mru = "929"
iso_4217 Currency.mur = "480"
iso_4217 Currency.mvr = "462"
iso_4217 Currency.mwk = "454"
iso_4217 Currency.mxn = "484"
iso_4217 Currency.myr = "458"
iso_4217 Currency.mzn = "943"
iso_4217 Currency.nad = "516"
iso_4217 Currency.ngn = "566"
iso_4217 Currency.nio = "558"
iso_4217 Currency.nok = "578"
iso_4217 Currency.npr = "524"
iso_4217 Currency.nzd = "554"
iso_4217 Currency.omr = "512"
iso_4217 Currency.pab = "590"
iso_4217 Currency.pen = "604"
iso_4217 Currency.pgk = "598"
iso_4217 Currency.php = "608"
iso_4217 Currency.pkr = "586"
iso_4217 Currency.pln = "985"
iso_4217 Currency.pyg = "600"
iso_4217 Currency.qar = "634"
iso_4217 Currency.ron = "946"
iso_4217 Currency.cny = "156"
iso_4217 Currency.rsd = "941"
iso_4217 Currency.rub = "643"
iso_4217 Currency.rwf = "646"
iso_4217 Currency.sar = "682"
iso_4217 Currency.sbd = "090"
iso_4217 Currency.scr = "690"
iso_4217 Currency.sek = "752"
iso_4217 Currency.sgd = "702"
iso_4217 Currency.shp = "654"
iso_4217 Currency.sle = "925"
iso_4217 Currency.sll = "694"
iso_4217 Currency.sos = "706"
iso_4217 Currency.srd = "968"
iso_4217 Currency.ssp = "728"
iso_4217 Currency.stn = "930"
iso_4217 Currency.svc = "222"
iso_4217 Currency.szl = "748"
iso_4217 Currency.thb = "764"
iso_4217 Currency.tnd = "788"
iso_4217 Currency.top = "776"
iso_4217 Currency.try = "949"
iso_4217 Currency.ttd = "780"
iso_4217 Currency.twd = "901"
iso_4217 Currency.tzs = "834"
iso_4217 Currency.uah = "980"
iso_4217 Currency.ugx = "800"
iso_4217 Currency.usd = "840"
iso_4217 Currency.uyu = "858"
iso_4217 Currency.uzs = "860"
iso_4217 Currency.ves = "928"
iso_4217 Currency.vnd = "704"
iso_4217 Currency.vuv = "548"
iso_4217 Currency.wst = "882"
iso_4217 Currency.xaf = "950"
iso_4217 Currency.xcd = "951"
iso_4217 Currency.xof = "952"
iso_4217 Currency.xpf = "953"
iso_4217 Currency.yer = "886"
iso_4217 Currency.zar = "710"
iso_4217 Currency.zmw = "967"
