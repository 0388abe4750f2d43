-- ===== src/Enums/Country/FromAlpha2.antt =====
-- `Country::from_alpha2` of crates/common_enums/src/transformers.rs.
use mercado.Enums.Country.Types.{CountryAlpha2, Country}

unfoldable pub from_alpha2 : CountryAlpha2 → Country
from_alpha2 CountryAlpha2.af = Country.afghanistan
from_alpha2 CountryAlpha2.ax = Country.aland_islands
from_alpha2 CountryAlpha2.al = Country.albania
from_alpha2 CountryAlpha2.dz = Country.algeria
from_alpha2 CountryAlpha2.«as» = Country.american_samoa
from_alpha2 CountryAlpha2.ad = Country.andorra
from_alpha2 CountryAlpha2.ao = Country.angola
from_alpha2 CountryAlpha2.ai = Country.anguilla
from_alpha2 CountryAlpha2.aq = Country.antarctica
from_alpha2 CountryAlpha2.ag = Country.antigua_and_barbuda
from_alpha2 CountryAlpha2.ar = Country.argentina
from_alpha2 CountryAlpha2.am = Country.armenia
from_alpha2 CountryAlpha2.aw = Country.aruba
from_alpha2 CountryAlpha2.au = Country.australia
from_alpha2 CountryAlpha2.at = Country.austria
from_alpha2 CountryAlpha2.az = Country.azerbaijan
from_alpha2 CountryAlpha2.bs = Country.bahamas
from_alpha2 CountryAlpha2.bh = Country.bahrain
from_alpha2 CountryAlpha2.bd = Country.bangladesh
from_alpha2 CountryAlpha2.bb = Country.barbados
from_alpha2 CountryAlpha2.by = Country.belarus
from_alpha2 CountryAlpha2.be = Country.belgium
from_alpha2 CountryAlpha2.bz = Country.belize
from_alpha2 CountryAlpha2.bj = Country.benin
from_alpha2 CountryAlpha2.bm = Country.bermuda
from_alpha2 CountryAlpha2.bt = Country.bhutan
from_alpha2 CountryAlpha2.bo = Country.bolivia_plurinational_state
from_alpha2 CountryAlpha2.bq = Country.bonaire_sint_eustatius_and_saba
from_alpha2 CountryAlpha2.ba = Country.bosnia_and_herzegovina
from_alpha2 CountryAlpha2.bw = Country.botswana
from_alpha2 CountryAlpha2.bv = Country.bouvet_island
from_alpha2 CountryAlpha2.br = Country.brazil
from_alpha2 CountryAlpha2.io = Country.british_indian_ocean_territory
from_alpha2 CountryAlpha2.bn = Country.brunei_darussalam
from_alpha2 CountryAlpha2.bg = Country.bulgaria
from_alpha2 CountryAlpha2.bf = Country.burkina_faso
from_alpha2 CountryAlpha2.bi = Country.burundi
from_alpha2 CountryAlpha2.kh = Country.cambodia
from_alpha2 CountryAlpha2.cm = Country.cameroon
from_alpha2 CountryAlpha2.ca = Country.canada
from_alpha2 CountryAlpha2.cv = Country.cabo_verde
from_alpha2 CountryAlpha2.ky = Country.cayman_islands
from_alpha2 CountryAlpha2.cf = Country.central_african_republic
from_alpha2 CountryAlpha2.td = Country.chad
from_alpha2 CountryAlpha2.cl = Country.chile
from_alpha2 CountryAlpha2.cn = Country.china
from_alpha2 CountryAlpha2.cx = Country.christmas_island
from_alpha2 CountryAlpha2.cc = Country.cocos_keeling_islands
from_alpha2 CountryAlpha2.co = Country.colombia
from_alpha2 CountryAlpha2.km = Country.comoros
from_alpha2 CountryAlpha2.cg = Country.congo
from_alpha2 CountryAlpha2.cd = Country.congo_democratic_republic
from_alpha2 CountryAlpha2.ck = Country.cook_islands
from_alpha2 CountryAlpha2.cr = Country.costa_rica
from_alpha2 CountryAlpha2.ci = Country.coted_ivoire
from_alpha2 CountryAlpha2.hr = Country.croatia
from_alpha2 CountryAlpha2.cu = Country.cuba
from_alpha2 CountryAlpha2.cw = Country.curacao
from_alpha2 CountryAlpha2.cy = Country.cyprus
from_alpha2 CountryAlpha2.cz = Country.czechia
from_alpha2 CountryAlpha2.dk = Country.denmark
from_alpha2 CountryAlpha2.dj = Country.djibouti
from_alpha2 CountryAlpha2.dm = Country.dominica
from_alpha2 CountryAlpha2.«do» = Country.dominican_republic
from_alpha2 CountryAlpha2.ec = Country.ecuador
from_alpha2 CountryAlpha2.eg = Country.egypt
from_alpha2 CountryAlpha2.sv = Country.el_salvador
from_alpha2 CountryAlpha2.gq = Country.equatorial_guinea
from_alpha2 CountryAlpha2.er = Country.eritrea
from_alpha2 CountryAlpha2.ee = Country.estonia
from_alpha2 CountryAlpha2.et = Country.ethiopia
from_alpha2 CountryAlpha2.fk = Country.falkland_islands_malvinas
from_alpha2 CountryAlpha2.fo = Country.faroe_islands
from_alpha2 CountryAlpha2.fj = Country.fiji
from_alpha2 CountryAlpha2.fi = Country.finland
from_alpha2 CountryAlpha2.fr = Country.france
from_alpha2 CountryAlpha2.gf = Country.french_guiana
from_alpha2 CountryAlpha2.pf = Country.french_polynesia
from_alpha2 CountryAlpha2.tf = Country.french_southern_territories
from_alpha2 CountryAlpha2.ga = Country.gabon
from_alpha2 CountryAlpha2.gm = Country.gambia
from_alpha2 CountryAlpha2.ge = Country.georgia
from_alpha2 CountryAlpha2.de = Country.germany
from_alpha2 CountryAlpha2.gh = Country.ghana
from_alpha2 CountryAlpha2.gi = Country.gibraltar
from_alpha2 CountryAlpha2.gr = Country.greece
from_alpha2 CountryAlpha2.gl = Country.greenland
from_alpha2 CountryAlpha2.gd = Country.grenada
from_alpha2 CountryAlpha2.gp = Country.guadeloupe
from_alpha2 CountryAlpha2.gu = Country.guam
from_alpha2 CountryAlpha2.gt = Country.guatemala
from_alpha2 CountryAlpha2.gg = Country.guernsey
from_alpha2 CountryAlpha2.gn = Country.guinea
from_alpha2 CountryAlpha2.gw = Country.guinea_bissau
from_alpha2 CountryAlpha2.gy = Country.guyana
from_alpha2 CountryAlpha2.ht = Country.haiti
from_alpha2 CountryAlpha2.hm = Country.heard_island_and_mc_donald_islands
from_alpha2 CountryAlpha2.va = Country.holy_see
from_alpha2 CountryAlpha2.hn = Country.honduras
from_alpha2 CountryAlpha2.hk = Country.hong_kong
from_alpha2 CountryAlpha2.hu = Country.hungary
from_alpha2 CountryAlpha2.is = Country.iceland
from_alpha2 CountryAlpha2.«in» = Country.india
from_alpha2 CountryAlpha2.id = Country.indonesia
from_alpha2 CountryAlpha2.ir = Country.iran_islamic_republic
from_alpha2 CountryAlpha2.iq = Country.iraq
from_alpha2 CountryAlpha2.ie = Country.ireland
from_alpha2 CountryAlpha2.im = Country.isle_of_man
from_alpha2 CountryAlpha2.il = Country.israel
from_alpha2 CountryAlpha2.it = Country.italy
from_alpha2 CountryAlpha2.jm = Country.jamaica
from_alpha2 CountryAlpha2.jp = Country.japan
from_alpha2 CountryAlpha2.je = Country.jersey
from_alpha2 CountryAlpha2.jo = Country.jordan
from_alpha2 CountryAlpha2.kz = Country.kazakhstan
from_alpha2 CountryAlpha2.ke = Country.kenya
from_alpha2 CountryAlpha2.ki = Country.kiribati
from_alpha2 CountryAlpha2.kp = Country.korea_democratic_peoples_republic
from_alpha2 CountryAlpha2.kr = Country.korea_republic
from_alpha2 CountryAlpha2.kw = Country.kuwait
from_alpha2 CountryAlpha2.kg = Country.kyrgyzstan
from_alpha2 CountryAlpha2.la = Country.lao_peoples_democratic_republic
from_alpha2 CountryAlpha2.lv = Country.latvia
from_alpha2 CountryAlpha2.lb = Country.lebanon
from_alpha2 CountryAlpha2.ls = Country.lesotho
from_alpha2 CountryAlpha2.lr = Country.liberia
from_alpha2 CountryAlpha2.ly = Country.libya
from_alpha2 CountryAlpha2.li = Country.liechtenstein
from_alpha2 CountryAlpha2.lt = Country.lithuania
from_alpha2 CountryAlpha2.lu = Country.luxembourg
from_alpha2 CountryAlpha2.mo = Country.macao
from_alpha2 CountryAlpha2.mk = Country.macedonia_the_former_yugoslav_republic
from_alpha2 CountryAlpha2.mg = Country.madagascar
from_alpha2 CountryAlpha2.mw = Country.malawi
from_alpha2 CountryAlpha2.my = Country.malaysia
from_alpha2 CountryAlpha2.mv = Country.maldives
from_alpha2 CountryAlpha2.ml = Country.mali
from_alpha2 CountryAlpha2.mt = Country.malta
from_alpha2 CountryAlpha2.mh = Country.marshall_islands
from_alpha2 CountryAlpha2.mq = Country.martinique
from_alpha2 CountryAlpha2.mr = Country.mauritania
from_alpha2 CountryAlpha2.mu = Country.mauritius
from_alpha2 CountryAlpha2.yt = Country.mayotte
from_alpha2 CountryAlpha2.mx = Country.mexico
from_alpha2 CountryAlpha2.fm = Country.micronesia_federated_states
from_alpha2 CountryAlpha2.md = Country.moldova_republic
from_alpha2 CountryAlpha2.mc = Country.monaco
from_alpha2 CountryAlpha2.mn = Country.mongolia
from_alpha2 CountryAlpha2.me = Country.montenegro
from_alpha2 CountryAlpha2.ms = Country.montserrat
from_alpha2 CountryAlpha2.ma = Country.morocco
from_alpha2 CountryAlpha2.mz = Country.mozambique
from_alpha2 CountryAlpha2.mm = Country.myanmar
from_alpha2 CountryAlpha2.na = Country.namibia
from_alpha2 CountryAlpha2.nr = Country.nauru
from_alpha2 CountryAlpha2.np = Country.nepal
from_alpha2 CountryAlpha2.nl = Country.netherlands
from_alpha2 CountryAlpha2.nc = Country.new_caledonia
from_alpha2 CountryAlpha2.nz = Country.new_zealand
from_alpha2 CountryAlpha2.ni = Country.nicaragua
from_alpha2 CountryAlpha2.ne = Country.niger
from_alpha2 CountryAlpha2.ng = Country.nigeria
from_alpha2 CountryAlpha2.nu = Country.niue
from_alpha2 CountryAlpha2.nf = Country.norfolk_island
from_alpha2 CountryAlpha2.mp = Country.northern_mariana_islands
from_alpha2 CountryAlpha2.no = Country.norway
from_alpha2 CountryAlpha2.om = Country.oman
from_alpha2 CountryAlpha2.pk = Country.pakistan
from_alpha2 CountryAlpha2.pw = Country.palau
from_alpha2 CountryAlpha2.ps = Country.palestine_state
from_alpha2 CountryAlpha2.pa = Country.panama
from_alpha2 CountryAlpha2.pg = Country.papua_new_guinea
from_alpha2 CountryAlpha2.py = Country.paraguay
from_alpha2 CountryAlpha2.pe = Country.peru
from_alpha2 CountryAlpha2.ph = Country.philippines
from_alpha2 CountryAlpha2.pn = Country.pitcairn
from_alpha2 CountryAlpha2.pl = Country.poland
from_alpha2 CountryAlpha2.pt = Country.portugal
from_alpha2 CountryAlpha2.pr = Country.puerto_rico
from_alpha2 CountryAlpha2.qa = Country.qatar
from_alpha2 CountryAlpha2.re = Country.reunion
from_alpha2 CountryAlpha2.ro = Country.romania
from_alpha2 CountryAlpha2.ru = Country.russian_federation
from_alpha2 CountryAlpha2.rw = Country.rwanda
from_alpha2 CountryAlpha2.bl = Country.saint_barthelemy
from_alpha2 CountryAlpha2.sh = Country.saint_helena_ascension_and_tristanda_cunha
from_alpha2 CountryAlpha2.kn = Country.saint_kitts_and_nevis
from_alpha2 CountryAlpha2.lc = Country.saint_lucia
from_alpha2 CountryAlpha2.mf = Country.saint_martin_frenchpart
from_alpha2 CountryAlpha2.pm = Country.saint_pierre_and_miquelon
from_alpha2 CountryAlpha2.vc = Country.saint_vincent_and_the_grenadines
from_alpha2 CountryAlpha2.ws = Country.samoa
from_alpha2 CountryAlpha2.sm = Country.san_marino
from_alpha2 CountryAlpha2.st = Country.sao_tome_and_principe
from_alpha2 CountryAlpha2.sa = Country.saudi_arabia
from_alpha2 CountryAlpha2.sn = Country.senegal
from_alpha2 CountryAlpha2.rs = Country.serbia
from_alpha2 CountryAlpha2.sc = Country.seychelles
from_alpha2 CountryAlpha2.sl = Country.sierra_leone
from_alpha2 CountryAlpha2.sg = Country.singapore
from_alpha2 CountryAlpha2.sx = Country.sint_maarten_dutchpart
from_alpha2 CountryAlpha2.sk = Country.slovakia
from_alpha2 CountryAlpha2.si = Country.slovenia
from_alpha2 CountryAlpha2.sb = Country.solomon_islands
from_alpha2 CountryAlpha2.so = Country.somalia
from_alpha2 CountryAlpha2.za = Country.south_africa
from_alpha2 CountryAlpha2.gs = Country.south_georgia_and_the_south_sandwich_islands
from_alpha2 CountryAlpha2.ss = Country.south_sudan
from_alpha2 CountryAlpha2.es = Country.spain
from_alpha2 CountryAlpha2.lk = Country.sri_lanka
from_alpha2 CountryAlpha2.sd = Country.sudan
from_alpha2 CountryAlpha2.sr = Country.suriname
from_alpha2 CountryAlpha2.sj = Country.svalbard_and_jan_mayen
from_alpha2 CountryAlpha2.sz = Country.swaziland
from_alpha2 CountryAlpha2.se = Country.sweden
from_alpha2 CountryAlpha2.ch = Country.switzerland
from_alpha2 CountryAlpha2.sy = Country.syrian_arab_republic
from_alpha2 CountryAlpha2.tw = Country.taiwan_province_of_china
from_alpha2 CountryAlpha2.tj = Country.tajikistan
from_alpha2 CountryAlpha2.tz = Country.tanzania_united_republic
from_alpha2 CountryAlpha2.th = Country.thailand
from_alpha2 CountryAlpha2.tl = Country.timor_leste
from_alpha2 CountryAlpha2.tg = Country.togo
from_alpha2 CountryAlpha2.tk = Country.tokelau
from_alpha2 CountryAlpha2.to = Country.tonga
from_alpha2 CountryAlpha2.tt = Country.trinidad_and_tobago
from_alpha2 CountryAlpha2.tn = Country.tunisia
from_alpha2 CountryAlpha2.tr = Country.turkey
from_alpha2 CountryAlpha2.tm = Country.turkmenistan
from_alpha2 CountryAlpha2.tc = Country.turks_and_caicos_islands
from_alpha2 CountryAlpha2.tv = Country.tuvalu
from_alpha2 CountryAlpha2.ug = Country.uganda
from_alpha2 CountryAlpha2.ua = Country.ukraine
from_alpha2 CountryAlpha2.ae = Country.united_arab_emirates
from_alpha2 CountryAlpha2.gb = Country.united_kingdom_of_great_britain_and_northern_ireland
from_alpha2 CountryAlpha2.um = Country.united_states_minor_outlying_islands
from_alpha2 CountryAlpha2.uy = Country.uruguay
from_alpha2 CountryAlpha2.uz = Country.uzbekistan
from_alpha2 CountryAlpha2.vu = Country.vanuatu
from_alpha2 CountryAlpha2.ve = Country.venezuela_bolivarian_republic
from_alpha2 CountryAlpha2.vn = Country.vietnam
from_alpha2 CountryAlpha2.vg = Country.virgin_islands_british
from_alpha2 CountryAlpha2.vi = Country.virgin_islands_us
from_alpha2 CountryAlpha2.wf = Country.wallis_and_futuna
from_alpha2 CountryAlpha2.eh = Country.western_sahara
from_alpha2 CountryAlpha2.ye = Country.yemen
from_alpha2 CountryAlpha2.zm = Country.zambia
from_alpha2 CountryAlpha2.zw = Country.zimbabwe
from_alpha2 CountryAlpha2.us = Country.united_states_of_america
