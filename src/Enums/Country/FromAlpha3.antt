-- ===== src/Enums/Country/FromAlpha3.antt =====
-- `Country::from_alpha3` of crates/common_enums/src/transformers.rs.
use mercado.Enums.Country.Types.{CountryAlpha3, Country}

unfoldable pub from_alpha3 : CountryAlpha3 → Country
from_alpha3 CountryAlpha3.afg = Country.afghanistan
from_alpha3 CountryAlpha3.ala = Country.aland_islands
from_alpha3 CountryAlpha3.alb = Country.albania
from_alpha3 CountryAlpha3.dza = Country.algeria
from_alpha3 CountryAlpha3.asm = Country.american_samoa
from_alpha3 CountryAlpha3.and = Country.andorra
from_alpha3 CountryAlpha3.ago = Country.angola
from_alpha3 CountryAlpha3.aia = Country.anguilla
from_alpha3 CountryAlpha3.ata = Country.antarctica
from_alpha3 CountryAlpha3.atg = Country.antigua_and_barbuda
from_alpha3 CountryAlpha3.arg = Country.argentina
from_alpha3 CountryAlpha3.arm = Country.armenia
from_alpha3 CountryAlpha3.abw = Country.aruba
from_alpha3 CountryAlpha3.aus = Country.australia
from_alpha3 CountryAlpha3.aut = Country.austria
from_alpha3 CountryAlpha3.aze = Country.azerbaijan
from_alpha3 CountryAlpha3.bhs = Country.bahamas
from_alpha3 CountryAlpha3.bhr = Country.bahrain
from_alpha3 CountryAlpha3.bgd = Country.bangladesh
from_alpha3 CountryAlpha3.brb = Country.barbados
from_alpha3 CountryAlpha3.blr = Country.belarus
from_alpha3 CountryAlpha3.bel = Country.belgium
from_alpha3 CountryAlpha3.blz = Country.belize
from_alpha3 CountryAlpha3.ben = Country.benin
from_alpha3 CountryAlpha3.bmu = Country.bermuda
from_alpha3 CountryAlpha3.btn = Country.bhutan
from_alpha3 CountryAlpha3.bol = Country.bolivia_plurinational_state
from_alpha3 CountryAlpha3.bes = Country.bonaire_sint_eustatius_and_saba
from_alpha3 CountryAlpha3.bih = Country.bosnia_and_herzegovina
from_alpha3 CountryAlpha3.bwa = Country.botswana
from_alpha3 CountryAlpha3.bvt = Country.bouvet_island
from_alpha3 CountryAlpha3.bra = Country.brazil
from_alpha3 CountryAlpha3.iot = Country.british_indian_ocean_territory
from_alpha3 CountryAlpha3.brn = Country.brunei_darussalam
from_alpha3 CountryAlpha3.bgr = Country.bulgaria
from_alpha3 CountryAlpha3.bfa = Country.burkina_faso
from_alpha3 CountryAlpha3.bdi = Country.burundi
from_alpha3 CountryAlpha3.cpv = Country.cabo_verde
from_alpha3 CountryAlpha3.khm = Country.cambodia
from_alpha3 CountryAlpha3.cmr = Country.cameroon
from_alpha3 CountryAlpha3.can = Country.canada
from_alpha3 CountryAlpha3.cym = Country.cayman_islands
from_alpha3 CountryAlpha3.caf = Country.central_african_republic
from_alpha3 CountryAlpha3.tcd = Country.chad
from_alpha3 CountryAlpha3.chl = Country.chile
from_alpha3 CountryAlpha3.chn = Country.china
from_alpha3 CountryAlpha3.cxr = Country.christmas_island
from_alpha3 CountryAlpha3.cck = Country.cocos_keeling_islands
from_alpha3 CountryAlpha3.col = Country.colombia
from_alpha3 CountryAlpha3.«com» = Country.comoros
from_alpha3 CountryAlpha3.cog = Country.congo
from_alpha3 CountryAlpha3.cod = Country.congo_democratic_republic
from_alpha3 CountryAlpha3.cok = Country.cook_islands
from_alpha3 CountryAlpha3.cri = Country.costa_rica
from_alpha3 CountryAlpha3.civ = Country.coted_ivoire
from_alpha3 CountryAlpha3.hrv = Country.croatia
from_alpha3 CountryAlpha3.cub = Country.cuba
from_alpha3 CountryAlpha3.cuw = Country.curacao
from_alpha3 CountryAlpha3.cyp = Country.cyprus
from_alpha3 CountryAlpha3.cze = Country.czechia
from_alpha3 CountryAlpha3.dnk = Country.denmark
from_alpha3 CountryAlpha3.dji = Country.djibouti
from_alpha3 CountryAlpha3.dma = Country.dominica
from_alpha3 CountryAlpha3.dom = Country.dominican_republic
from_alpha3 CountryAlpha3.ecu = Country.ecuador
from_alpha3 CountryAlpha3.egy = Country.egypt
from_alpha3 CountryAlpha3.slv = Country.el_salvador
from_alpha3 CountryAlpha3.gnq = Country.equatorial_guinea
from_alpha3 CountryAlpha3.eri = Country.eritrea
from_alpha3 CountryAlpha3.est = Country.estonia
from_alpha3 CountryAlpha3.eth = Country.ethiopia
from_alpha3 CountryAlpha3.flk = Country.falkland_islands_malvinas
from_alpha3 CountryAlpha3.fro = Country.faroe_islands
from_alpha3 CountryAlpha3.fji = Country.fiji
from_alpha3 CountryAlpha3.fin = Country.finland
from_alpha3 CountryAlpha3.fra = Country.france
from_alpha3 CountryAlpha3.guf = Country.french_guiana
from_alpha3 CountryAlpha3.pyf = Country.french_polynesia
from_alpha3 CountryAlpha3.atf = Country.french_southern_territories
from_alpha3 CountryAlpha3.gab = Country.gabon
from_alpha3 CountryAlpha3.gmb = Country.gambia
from_alpha3 CountryAlpha3.geo = Country.georgia
from_alpha3 CountryAlpha3.deu = Country.germany
from_alpha3 CountryAlpha3.gha = Country.ghana
from_alpha3 CountryAlpha3.gib = Country.gibraltar
from_alpha3 CountryAlpha3.grc = Country.greece
from_alpha3 CountryAlpha3.grl = Country.greenland
from_alpha3 CountryAlpha3.grd = Country.grenada
from_alpha3 CountryAlpha3.glp = Country.guadeloupe
from_alpha3 CountryAlpha3.gum = Country.guam
from_alpha3 CountryAlpha3.gtm = Country.guatemala
from_alpha3 CountryAlpha3.ggy = Country.guernsey
from_alpha3 CountryAlpha3.gin = Country.guinea
from_alpha3 CountryAlpha3.gnb = Country.guinea_bissau
from_alpha3 CountryAlpha3.guy = Country.guyana
from_alpha3 CountryAlpha3.hti = Country.haiti
from_alpha3 CountryAlpha3.hmd = Country.heard_island_and_mc_donald_islands
from_alpha3 CountryAlpha3.vat = Country.holy_see
from_alpha3 CountryAlpha3.hnd = Country.honduras
from_alpha3 CountryAlpha3.hkg = Country.hong_kong
from_alpha3 CountryAlpha3.hun = Country.hungary
from_alpha3 CountryAlpha3.isl = Country.iceland
from_alpha3 CountryAlpha3.ind = Country.india
from_alpha3 CountryAlpha3.idn = Country.indonesia
from_alpha3 CountryAlpha3.irn = Country.iran_islamic_republic
from_alpha3 CountryAlpha3.irq = Country.iraq
from_alpha3 CountryAlpha3.irl = Country.ireland
from_alpha3 CountryAlpha3.imn = Country.isle_of_man
from_alpha3 CountryAlpha3.isr = Country.israel
from_alpha3 CountryAlpha3.ita = Country.italy
from_alpha3 CountryAlpha3.jam = Country.jamaica
from_alpha3 CountryAlpha3.jpn = Country.japan
from_alpha3 CountryAlpha3.jey = Country.jersey
from_alpha3 CountryAlpha3.jor = Country.jordan
from_alpha3 CountryAlpha3.kaz = Country.kazakhstan
from_alpha3 CountryAlpha3.ken = Country.kenya
from_alpha3 CountryAlpha3.kir = Country.kiribati
from_alpha3 CountryAlpha3.prk = Country.korea_democratic_peoples_republic
from_alpha3 CountryAlpha3.kor = Country.korea_republic
from_alpha3 CountryAlpha3.kwt = Country.kuwait
from_alpha3 CountryAlpha3.kgz = Country.kyrgyzstan
from_alpha3 CountryAlpha3.lao = Country.lao_peoples_democratic_republic
from_alpha3 CountryAlpha3.lva = Country.latvia
from_alpha3 CountryAlpha3.lbn = Country.lebanon
from_alpha3 CountryAlpha3.lso = Country.lesotho
from_alpha3 CountryAlpha3.lbr = Country.liberia
from_alpha3 CountryAlpha3.lby = Country.libya
from_alpha3 CountryAlpha3.lie = Country.liechtenstein
from_alpha3 CountryAlpha3.ltu = Country.lithuania
from_alpha3 CountryAlpha3.lux = Country.luxembourg
from_alpha3 CountryAlpha3.mac = Country.macao
from_alpha3 CountryAlpha3.mkd = Country.macedonia_the_former_yugoslav_republic
from_alpha3 CountryAlpha3.mdg = Country.madagascar
from_alpha3 CountryAlpha3.mwi = Country.malawi
from_alpha3 CountryAlpha3.mys = Country.malaysia
from_alpha3 CountryAlpha3.mdv = Country.maldives
from_alpha3 CountryAlpha3.mli = Country.mali
from_alpha3 CountryAlpha3.mlt = Country.malta
from_alpha3 CountryAlpha3.mhl = Country.marshall_islands
from_alpha3 CountryAlpha3.mtq = Country.martinique
from_alpha3 CountryAlpha3.mrt = Country.mauritania
from_alpha3 CountryAlpha3.mus = Country.mauritius
from_alpha3 CountryAlpha3.myt = Country.mayotte
from_alpha3 CountryAlpha3.mex = Country.mexico
from_alpha3 CountryAlpha3.fsm = Country.micronesia_federated_states
from_alpha3 CountryAlpha3.mda = Country.moldova_republic
from_alpha3 CountryAlpha3.mco = Country.monaco
from_alpha3 CountryAlpha3.mng = Country.mongolia
from_alpha3 CountryAlpha3.mne = Country.montenegro
from_alpha3 CountryAlpha3.msr = Country.montserrat
from_alpha3 CountryAlpha3.mar = Country.morocco
from_alpha3 CountryAlpha3.moz = Country.mozambique
from_alpha3 CountryAlpha3.mmr = Country.myanmar
from_alpha3 CountryAlpha3.nam = Country.namibia
from_alpha3 CountryAlpha3.nru = Country.nauru
from_alpha3 CountryAlpha3.npl = Country.nepal
from_alpha3 CountryAlpha3.nld = Country.netherlands
from_alpha3 CountryAlpha3.ncl = Country.new_caledonia
from_alpha3 CountryAlpha3.nzl = Country.new_zealand
from_alpha3 CountryAlpha3.nic = Country.nicaragua
from_alpha3 CountryAlpha3.ner = Country.niger
from_alpha3 CountryAlpha3.nga = Country.nigeria
from_alpha3 CountryAlpha3.niu = Country.niue
from_alpha3 CountryAlpha3.nfk = Country.norfolk_island
from_alpha3 CountryAlpha3.mnp = Country.northern_mariana_islands
from_alpha3 CountryAlpha3.nor = Country.norway
from_alpha3 CountryAlpha3.omn = Country.oman
from_alpha3 CountryAlpha3.pak = Country.pakistan
from_alpha3 CountryAlpha3.plw = Country.palau
from_alpha3 CountryAlpha3.pse = Country.palestine_state
from_alpha3 CountryAlpha3.pan = Country.panama
from_alpha3 CountryAlpha3.png = Country.papua_new_guinea
from_alpha3 CountryAlpha3.pry = Country.paraguay
from_alpha3 CountryAlpha3.per = Country.peru
from_alpha3 CountryAlpha3.phl = Country.philippines
from_alpha3 CountryAlpha3.pcn = Country.pitcairn
from_alpha3 CountryAlpha3.pol = Country.poland
from_alpha3 CountryAlpha3.prt = Country.portugal
from_alpha3 CountryAlpha3.pri = Country.puerto_rico
from_alpha3 CountryAlpha3.qat = Country.qatar
from_alpha3 CountryAlpha3.reu = Country.reunion
from_alpha3 CountryAlpha3.rou = Country.romania
from_alpha3 CountryAlpha3.rus = Country.russian_federation
from_alpha3 CountryAlpha3.rwa = Country.rwanda
from_alpha3 CountryAlpha3.blm = Country.saint_barthelemy
from_alpha3 CountryAlpha3.shn = Country.saint_helena_ascension_and_tristanda_cunha
from_alpha3 CountryAlpha3.kna = Country.saint_kitts_and_nevis
from_alpha3 CountryAlpha3.lca = Country.saint_lucia
from_alpha3 CountryAlpha3.maf = Country.saint_martin_frenchpart
from_alpha3 CountryAlpha3.spm = Country.saint_pierre_and_miquelon
from_alpha3 CountryAlpha3.vct = Country.saint_vincent_and_the_grenadines
from_alpha3 CountryAlpha3.wsm = Country.samoa
from_alpha3 CountryAlpha3.smr = Country.san_marino
from_alpha3 CountryAlpha3.stp = Country.sao_tome_and_principe
from_alpha3 CountryAlpha3.sau = Country.saudi_arabia
from_alpha3 CountryAlpha3.sen = Country.senegal
from_alpha3 CountryAlpha3.srb = Country.serbia
from_alpha3 CountryAlpha3.syc = Country.seychelles
from_alpha3 CountryAlpha3.sle = Country.sierra_leone
from_alpha3 CountryAlpha3.sgp = Country.singapore
from_alpha3 CountryAlpha3.sxm = Country.sint_maarten_dutchpart
from_alpha3 CountryAlpha3.svk = Country.slovakia
from_alpha3 CountryAlpha3.svn = Country.slovenia
from_alpha3 CountryAlpha3.slb = Country.solomon_islands
from_alpha3 CountryAlpha3.som = Country.somalia
from_alpha3 CountryAlpha3.zaf = Country.south_africa
from_alpha3 CountryAlpha3.sgs = Country.south_georgia_and_the_south_sandwich_islands
from_alpha3 CountryAlpha3.ssd = Country.south_sudan
from_alpha3 CountryAlpha3.esp = Country.spain
from_alpha3 CountryAlpha3.lka = Country.sri_lanka
from_alpha3 CountryAlpha3.sdn = Country.sudan
from_alpha3 CountryAlpha3.sur = Country.suriname
from_alpha3 CountryAlpha3.sjm = Country.svalbard_and_jan_mayen
from_alpha3 CountryAlpha3.swz = Country.swaziland
from_alpha3 CountryAlpha3.swe = Country.sweden
from_alpha3 CountryAlpha3.che = Country.switzerland
from_alpha3 CountryAlpha3.syr = Country.syrian_arab_republic
from_alpha3 CountryAlpha3.twn = Country.taiwan_province_of_china
from_alpha3 CountryAlpha3.tjk = Country.tajikistan
from_alpha3 CountryAlpha3.tza = Country.tanzania_united_republic
from_alpha3 CountryAlpha3.tha = Country.thailand
from_alpha3 CountryAlpha3.tls = Country.timor_leste
from_alpha3 CountryAlpha3.tgo = Country.togo
from_alpha3 CountryAlpha3.tkl = Country.tokelau
from_alpha3 CountryAlpha3.ton = Country.tonga
from_alpha3 CountryAlpha3.tto = Country.trinidad_and_tobago
from_alpha3 CountryAlpha3.tun = Country.tunisia
from_alpha3 CountryAlpha3.tur = Country.turkey
from_alpha3 CountryAlpha3.tkm = Country.turkmenistan
from_alpha3 CountryAlpha3.tca = Country.turks_and_caicos_islands
from_alpha3 CountryAlpha3.tuv = Country.tuvalu
from_alpha3 CountryAlpha3.uga = Country.uganda
from_alpha3 CountryAlpha3.ukr = Country.ukraine
from_alpha3 CountryAlpha3.are = Country.united_arab_emirates
from_alpha3 CountryAlpha3.gbr = Country.united_kingdom_of_great_britain_and_northern_ireland
from_alpha3 CountryAlpha3.usa = Country.united_states_of_america
from_alpha3 CountryAlpha3.umi = Country.united_states_minor_outlying_islands
from_alpha3 CountryAlpha3.ury = Country.uruguay
from_alpha3 CountryAlpha3.uzb = Country.uzbekistan
from_alpha3 CountryAlpha3.vut = Country.vanuatu
from_alpha3 CountryAlpha3.ven = Country.venezuela_bolivarian_republic
from_alpha3 CountryAlpha3.vnm = Country.vietnam
from_alpha3 CountryAlpha3.vgb = Country.virgin_islands_british
from_alpha3 CountryAlpha3.vir = Country.virgin_islands_us
from_alpha3 CountryAlpha3.wlf = Country.wallis_and_futuna
from_alpha3 CountryAlpha3.esh = Country.western_sahara
from_alpha3 CountryAlpha3.yem = Country.yemen
from_alpha3 CountryAlpha3.zmb = Country.zambia
from_alpha3 CountryAlpha3.zwe = Country.zimbabwe
