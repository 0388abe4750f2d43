-- ===== src/Enums/Country/ToAlpha3.antt =====
-- `Country::to_alpha3` of crates/common_enums/src/transformers.rs.
use mercado.Enums.Country.Types.{Country, CountryAlpha3}

unfoldable pub to_alpha3 : Country → CountryAlpha3
to_alpha3 Country.afghanistan = CountryAlpha3.afg
to_alpha3 Country.aland_islands = CountryAlpha3.ala
to_alpha3 Country.albania = CountryAlpha3.alb
to_alpha3 Country.algeria = CountryAlpha3.dza
to_alpha3 Country.american_samoa = CountryAlpha3.asm
to_alpha3 Country.andorra = CountryAlpha3.and
to_alpha3 Country.angola = CountryAlpha3.ago
to_alpha3 Country.anguilla = CountryAlpha3.aia
to_alpha3 Country.antarctica = CountryAlpha3.ata
to_alpha3 Country.antigua_and_barbuda = CountryAlpha3.atg
to_alpha3 Country.argentina = CountryAlpha3.arg
to_alpha3 Country.armenia = CountryAlpha3.arm
to_alpha3 Country.aruba = CountryAlpha3.abw
to_alpha3 Country.australia = CountryAlpha3.aus
to_alpha3 Country.austria = CountryAlpha3.aut
to_alpha3 Country.azerbaijan = CountryAlpha3.aze
to_alpha3 Country.bahamas = CountryAlpha3.bhs
to_alpha3 Country.bahrain = CountryAlpha3.bhr
to_alpha3 Country.bangladesh = CountryAlpha3.bgd
to_alpha3 Country.barbados = CountryAlpha3.brb
to_alpha3 Country.belarus = CountryAlpha3.blr
to_alpha3 Country.belgium = CountryAlpha3.bel
to_alpha3 Country.belize = CountryAlpha3.blz
to_alpha3 Country.benin = CountryAlpha3.ben
to_alpha3 Country.bermuda = CountryAlpha3.bmu
to_alpha3 Country.bhutan = CountryAlpha3.btn
to_alpha3 Country.bolivia_plurinational_state = CountryAlpha3.bol
to_alpha3 Country.bonaire_sint_eustatius_and_saba = CountryAlpha3.bes
to_alpha3 Country.bosnia_and_herzegovina = CountryAlpha3.bih
to_alpha3 Country.botswana = CountryAlpha3.bwa
to_alpha3 Country.bouvet_island = CountryAlpha3.bvt
to_alpha3 Country.brazil = CountryAlpha3.bra
to_alpha3 Country.british_indian_ocean_territory = CountryAlpha3.iot
to_alpha3 Country.brunei_darussalam = CountryAlpha3.brn
to_alpha3 Country.bulgaria = CountryAlpha3.bgr
to_alpha3 Country.burkina_faso = CountryAlpha3.bfa
to_alpha3 Country.burundi = CountryAlpha3.bdi
to_alpha3 Country.cabo_verde = CountryAlpha3.cpv
to_alpha3 Country.cambodia = CountryAlpha3.khm
to_alpha3 Country.cameroon = CountryAlpha3.cmr
to_alpha3 Country.canada = CountryAlpha3.can
to_alpha3 Country.cayman_islands = CountryAlpha3.cym
to_alpha3 Country.central_african_republic = CountryAlpha3.caf
to_alpha3 Country.chad = CountryAlpha3.tcd
to_alpha3 Country.chile = CountryAlpha3.chl
to_alpha3 Country.china = CountryAlpha3.chn
to_alpha3 Country.christmas_island = CountryAlpha3.cxr
to_alpha3 Country.cocos_keeling_islands = CountryAlpha3.cck
to_alpha3 Country.colombia = CountryAlpha3.col
to_alpha3 Country.comoros = CountryAlpha3.«com»
to_alpha3 Country.congo = CountryAlpha3.cog
to_alpha3 Country.congo_democratic_republic = CountryAlpha3.cod
to_alpha3 Country.cook_islands = CountryAlpha3.cok
to_alpha3 Country.costa_rica = CountryAlpha3.cri
to_alpha3 Country.coted_ivoire = CountryAlpha3.civ
to_alpha3 Country.croatia = CountryAlpha3.hrv
to_alpha3 Country.cuba = CountryAlpha3.cub
to_alpha3 Country.curacao = CountryAlpha3.cuw
to_alpha3 Country.cyprus = CountryAlpha3.cyp
to_alpha3 Country.czechia = CountryAlpha3.cze
to_alpha3 Country.denmark = CountryAlpha3.dnk
to_alpha3 Country.djibouti = CountryAlpha3.dji
to_alpha3 Country.dominica = CountryAlpha3.dma
to_alpha3 Country.dominican_republic = CountryAlpha3.dom
to_alpha3 Country.ecuador = CountryAlpha3.ecu
to_alpha3 Country.egypt = CountryAlpha3.egy
to_alpha3 Country.el_salvador = CountryAlpha3.slv
to_alpha3 Country.equatorial_guinea = CountryAlpha3.gnq
to_alpha3 Country.eritrea = CountryAlpha3.eri
to_alpha3 Country.estonia = CountryAlpha3.est
to_alpha3 Country.ethiopia = CountryAlpha3.eth
to_alpha3 Country.falkland_islands_malvinas = CountryAlpha3.flk
to_alpha3 Country.faroe_islands = CountryAlpha3.fro
to_alpha3 Country.fiji = CountryAlpha3.fji
to_alpha3 Country.finland = CountryAlpha3.fin
to_alpha3 Country.france = CountryAlpha3.fra
to_alpha3 Country.french_guiana = CountryAlpha3.guf
to_alpha3 Country.french_polynesia = CountryAlpha3.pyf
to_alpha3 Country.french_southern_territories = CountryAlpha3.atf
to_alpha3 Country.gabon = CountryAlpha3.gab
to_alpha3 Country.gambia = CountryAlpha3.gmb
to_alpha3 Country.georgia = CountryAlpha3.geo
to_alpha3 Country.germany = CountryAlpha3.deu
to_alpha3 Country.ghana = CountryAlpha3.gha
to_alpha3 Country.gibraltar = CountryAlpha3.gib
to_alpha3 Country.greece = CountryAlpha3.grc
to_alpha3 Country.greenland = CountryAlpha3.grl
to_alpha3 Country.grenada = CountryAlpha3.grd
to_alpha3 Country.guadeloupe = CountryAlpha3.glp
to_alpha3 Country.guam = CountryAlpha3.gum
to_alpha3 Country.guatemala = CountryAlpha3.gtm
to_alpha3 Country.guernsey = CountryAlpha3.ggy
to_alpha3 Country.guinea = CountryAlpha3.gin
to_alpha3 Country.guinea_bissau = CountryAlpha3.gnb
to_alpha3 Country.guyana = CountryAlpha3.guy
to_alpha3 Country.haiti = CountryAlpha3.hti
to_alpha3 Country.heard_island_and_mc_donald_islands = CountryAlpha3.hmd
to_alpha3 Country.holy_see = CountryAlpha3.vat
to_alpha3 Country.honduras = CountryAlpha3.hnd
to_alpha3 Country.hong_kong = CountryAlpha3.hkg
to_alpha3 Country.hungary = CountryAlpha3.hun
to_alpha3 Country.iceland = CountryAlpha3.isl
to_alpha3 Country.india = CountryAlpha3.ind
to_alpha3 Country.indonesia = CountryAlpha3.idn
to_alpha3 Country.iran_islamic_republic = CountryAlpha3.irn
to_alpha3 Country.iraq = CountryAlpha3.irq
to_alpha3 Country.ireland = CountryAlpha3.irl
to_alpha3 Country.isle_of_man = CountryAlpha3.imn
to_alpha3 Country.israel = CountryAlpha3.isr
to_alpha3 Country.italy = CountryAlpha3.ita
to_alpha3 Country.jamaica = CountryAlpha3.jam
to_alpha3 Country.japan = CountryAlpha3.jpn
to_alpha3 Country.jersey = CountryAlpha3.jey
to_alpha3 Country.jordan = CountryAlpha3.jor
to_alpha3 Country.kazakhstan = CountryAlpha3.kaz
to_alpha3 Country.kenya = CountryAlpha3.ken
to_alpha3 Country.kiribati = CountryAlpha3.kir
to_alpha3 Country.korea_democratic_peoples_republic = CountryAlpha3.prk
to_alpha3 Country.korea_republic = CountryAlpha3.kor
to_alpha3 Country.kuwait = CountryAlpha3.kwt
to_alpha3 Country.kyrgyzstan = CountryAlpha3.kgz
to_alpha3 Country.lao_peoples_democratic_republic = CountryAlpha3.lao
to_alpha3 Country.latvia = CountryAlpha3.lva
to_alpha3 Country.lebanon = CountryAlpha3.lbn
to_alpha3 Country.lesotho = CountryAlpha3.lso
to_alpha3 Country.liberia = CountryAlpha3.lbr
to_alpha3 Country.libya = CountryAlpha3.lby
to_alpha3 Country.liechtenstein = CountryAlpha3.lie
to_alpha3 Country.lithuania = CountryAlpha3.ltu
to_alpha3 Country.luxembourg = CountryAlpha3.lux
to_alpha3 Country.macao = CountryAlpha3.mac
to_alpha3 Country.macedonia_the_former_yugoslav_republic = CountryAlpha3.mkd
to_alpha3 Country.madagascar = CountryAlpha3.mdg
to_alpha3 Country.malawi = CountryAlpha3.mwi
to_alpha3 Country.malaysia = CountryAlpha3.mys
to_alpha3 Country.maldives = CountryAlpha3.mdv
to_alpha3 Country.mali = CountryAlpha3.mli
to_alpha3 Country.malta = CountryAlpha3.mlt
to_alpha3 Country.marshall_islands = CountryAlpha3.mhl
to_alpha3 Country.martinique = CountryAlpha3.mtq
to_alpha3 Country.mauritania = CountryAlpha3.mrt
to_alpha3 Country.mauritius = CountryAlpha3.mus
to_alpha3 Country.mayotte = CountryAlpha3.myt
to_alpha3 Country.mexico = CountryAlpha3.mex
to_alpha3 Country.micronesia_federated_states = CountryAlpha3.fsm
to_alpha3 Country.moldova_republic = CountryAlpha3.mda
to_alpha3 Country.monaco = CountryAlpha3.mco
to_alpha3 Country.mongolia = CountryAlpha3.mng
to_alpha3 Country.montenegro = CountryAlpha3.mne
to_alpha3 Country.montserrat = CountryAlpha3.msr
to_alpha3 Country.morocco = CountryAlpha3.mar
to_alpha3 Country.mozambique = CountryAlpha3.moz
to_alpha3 Country.myanmar = CountryAlpha3.mmr
to_alpha3 Country.namibia = CountryAlpha3.nam
to_alpha3 Country.nauru = CountryAlpha3.nru
to_alpha3 Country.nepal = CountryAlpha3.npl
to_alpha3 Country.netherlands = CountryAlpha3.nld
to_alpha3 Country.new_caledonia = CountryAlpha3.ncl
to_alpha3 Country.new_zealand = CountryAlpha3.nzl
to_alpha3 Country.nicaragua = CountryAlpha3.nic
to_alpha3 Country.niger = CountryAlpha3.ner
to_alpha3 Country.nigeria = CountryAlpha3.nga
to_alpha3 Country.niue = CountryAlpha3.niu
to_alpha3 Country.norfolk_island = CountryAlpha3.nfk
to_alpha3 Country.northern_mariana_islands = CountryAlpha3.mnp
to_alpha3 Country.norway = CountryAlpha3.nor
to_alpha3 Country.oman = CountryAlpha3.omn
to_alpha3 Country.pakistan = CountryAlpha3.pak
to_alpha3 Country.palau = CountryAlpha3.plw
to_alpha3 Country.palestine_state = CountryAlpha3.pse
to_alpha3 Country.panama = CountryAlpha3.pan
to_alpha3 Country.papua_new_guinea = CountryAlpha3.png
to_alpha3 Country.paraguay = CountryAlpha3.pry
to_alpha3 Country.peru = CountryAlpha3.per
to_alpha3 Country.philippines = CountryAlpha3.phl
to_alpha3 Country.pitcairn = CountryAlpha3.pcn
to_alpha3 Country.poland = CountryAlpha3.pol
to_alpha3 Country.portugal = CountryAlpha3.prt
to_alpha3 Country.puerto_rico = CountryAlpha3.pri
to_alpha3 Country.qatar = CountryAlpha3.qat
to_alpha3 Country.reunion = CountryAlpha3.reu
to_alpha3 Country.romania = CountryAlpha3.rou
to_alpha3 Country.russian_federation = CountryAlpha3.rus
to_alpha3 Country.rwanda = CountryAlpha3.rwa
to_alpha3 Country.saint_barthelemy = CountryAlpha3.blm
to_alpha3 Country.saint_helena_ascension_and_tristanda_cunha = CountryAlpha3.shn
to_alpha3 Country.saint_kitts_and_nevis = CountryAlpha3.kna
to_alpha3 Country.saint_lucia = CountryAlpha3.lca
to_alpha3 Country.saint_martin_frenchpart = CountryAlpha3.maf
to_alpha3 Country.saint_pierre_and_miquelon = CountryAlpha3.spm
to_alpha3 Country.saint_vincent_and_the_grenadines = CountryAlpha3.vct
to_alpha3 Country.samoa = CountryAlpha3.wsm
to_alpha3 Country.san_marino = CountryAlpha3.smr
to_alpha3 Country.sao_tome_and_principe = CountryAlpha3.stp
to_alpha3 Country.saudi_arabia = CountryAlpha3.sau
to_alpha3 Country.senegal = CountryAlpha3.sen
to_alpha3 Country.serbia = CountryAlpha3.srb
to_alpha3 Country.seychelles = CountryAlpha3.syc
to_alpha3 Country.sierra_leone = CountryAlpha3.sle
to_alpha3 Country.singapore = CountryAlpha3.sgp
to_alpha3 Country.sint_maarten_dutchpart = CountryAlpha3.sxm
to_alpha3 Country.slovakia = CountryAlpha3.svk
to_alpha3 Country.slovenia = CountryAlpha3.svn
to_alpha3 Country.solomon_islands = CountryAlpha3.slb
to_alpha3 Country.somalia = CountryAlpha3.som
to_alpha3 Country.south_africa = CountryAlpha3.zaf
to_alpha3 Country.south_georgia_and_the_south_sandwich_islands = CountryAlpha3.sgs
to_alpha3 Country.south_sudan = CountryAlpha3.ssd
to_alpha3 Country.spain = CountryAlpha3.esp
to_alpha3 Country.sri_lanka = CountryAlpha3.lka
to_alpha3 Country.sudan = CountryAlpha3.sdn
to_alpha3 Country.suriname = CountryAlpha3.sur
to_alpha3 Country.svalbard_and_jan_mayen = CountryAlpha3.sjm
to_alpha3 Country.swaziland = CountryAlpha3.swz
to_alpha3 Country.sweden = CountryAlpha3.swe
to_alpha3 Country.switzerland = CountryAlpha3.che
to_alpha3 Country.syrian_arab_republic = CountryAlpha3.syr
to_alpha3 Country.taiwan_province_of_china = CountryAlpha3.twn
to_alpha3 Country.tajikistan = CountryAlpha3.tjk
to_alpha3 Country.tanzania_united_republic = CountryAlpha3.tza
to_alpha3 Country.thailand = CountryAlpha3.tha
to_alpha3 Country.timor_leste = CountryAlpha3.tls
to_alpha3 Country.togo = CountryAlpha3.tgo
to_alpha3 Country.tokelau = CountryAlpha3.tkl
to_alpha3 Country.tonga = CountryAlpha3.ton
to_alpha3 Country.trinidad_and_tobago = CountryAlpha3.tto
to_alpha3 Country.tunisia = CountryAlpha3.tun
to_alpha3 Country.turkey = CountryAlpha3.tur
to_alpha3 Country.turkmenistan = CountryAlpha3.tkm
to_alpha3 Country.turks_and_caicos_islands = CountryAlpha3.tca
to_alpha3 Country.tuvalu = CountryAlpha3.tuv
to_alpha3 Country.uganda = CountryAlpha3.uga
to_alpha3 Country.ukraine = CountryAlpha3.ukr
to_alpha3 Country.united_arab_emirates = CountryAlpha3.are
to_alpha3 Country.united_kingdom_of_great_britain_and_northern_ireland = CountryAlpha3.gbr
to_alpha3 Country.united_states_of_america = CountryAlpha3.usa
to_alpha3 Country.united_states_minor_outlying_islands = CountryAlpha3.umi
to_alpha3 Country.uruguay = CountryAlpha3.ury
to_alpha3 Country.uzbekistan = CountryAlpha3.uzb
to_alpha3 Country.vanuatu = CountryAlpha3.vut
to_alpha3 Country.venezuela_bolivarian_republic = CountryAlpha3.ven
to_alpha3 Country.vietnam = CountryAlpha3.vnm
to_alpha3 Country.virgin_islands_british = CountryAlpha3.vgb
to_alpha3 Country.virgin_islands_us = CountryAlpha3.vir
to_alpha3 Country.wallis_and_futuna = CountryAlpha3.wlf
to_alpha3 Country.western_sahara = CountryAlpha3.esh
to_alpha3 Country.yemen = CountryAlpha3.yem
to_alpha3 Country.zambia = CountryAlpha3.zmb
to_alpha3 Country.zimbabwe = CountryAlpha3.zwe
