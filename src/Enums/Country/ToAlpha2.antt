-- ===== src/Enums/Country/ToAlpha2.antt =====
-- `Country::to_alpha2` of crates/common_enums/src/transformers.rs.
use mercado.Enums.Country.Types.{Country, CountryAlpha2}

unfoldable pub to_alpha2 : Country → CountryAlpha2
to_alpha2 Country.afghanistan = CountryAlpha2.af
to_alpha2 Country.aland_islands = CountryAlpha2.ax
to_alpha2 Country.albania = CountryAlpha2.al
to_alpha2 Country.algeria = CountryAlpha2.dz
to_alpha2 Country.american_samoa = CountryAlpha2.«as»
to_alpha2 Country.andorra = CountryAlpha2.ad
to_alpha2 Country.angola = CountryAlpha2.ao
to_alpha2 Country.anguilla = CountryAlpha2.ai
to_alpha2 Country.antarctica = CountryAlpha2.aq
to_alpha2 Country.antigua_and_barbuda = CountryAlpha2.ag
to_alpha2 Country.argentina = CountryAlpha2.ar
to_alpha2 Country.armenia = CountryAlpha2.am
to_alpha2 Country.aruba = CountryAlpha2.aw
to_alpha2 Country.australia = CountryAlpha2.au
to_alpha2 Country.austria = CountryAlpha2.at
to_alpha2 Country.azerbaijan = CountryAlpha2.az
to_alpha2 Country.bahamas = CountryAlpha2.bs
to_alpha2 Country.bahrain = CountryAlpha2.bh
to_alpha2 Country.bangladesh = CountryAlpha2.bd
to_alpha2 Country.barbados = CountryAlpha2.bb
to_alpha2 Country.belarus = CountryAlpha2.by
to_alpha2 Country.belgium = CountryAlpha2.be
to_alpha2 Country.belize = CountryAlpha2.bz
to_alpha2 Country.benin = CountryAlpha2.bj
to_alpha2 Country.bermuda = CountryAlpha2.bm
to_alpha2 Country.bhutan = CountryAlpha2.bt
to_alpha2 Country.bolivia_plurinational_state = CountryAlpha2.bo
to_alpha2 Country.bonaire_sint_eustatius_and_saba = CountryAlpha2.bq
to_alpha2 Country.bosnia_and_herzegovina = CountryAlpha2.ba
to_alpha2 Country.botswana = CountryAlpha2.bw
to_alpha2 Country.bouvet_island = CountryAlpha2.bv
to_alpha2 Country.brazil = CountryAlpha2.br
to_alpha2 Country.british_indian_ocean_territory = CountryAlpha2.io
to_alpha2 Country.brunei_darussalam = CountryAlpha2.bn
to_alpha2 Country.bulgaria = CountryAlpha2.bg
to_alpha2 Country.burkina_faso = CountryAlpha2.bf
to_alpha2 Country.burundi = CountryAlpha2.bi
to_alpha2 Country.cabo_verde = CountryAlpha2.cv
to_alpha2 Country.cambodia = CountryAlpha2.kh
to_alpha2 Country.cameroon = CountryAlpha2.cm
to_alpha2 Country.canada = CountryAlpha2.ca
to_alpha2 Country.cayman_islands = CountryAlpha2.ky
to_alpha2 Country.central_african_republic = CountryAlpha2.cf
to_alpha2 Country.chad = CountryAlpha2.td
to_alpha2 Country.chile = CountryAlpha2.cl
to_alpha2 Country.china = CountryAlpha2.cn
to_alpha2 Country.christmas_island = CountryAlpha2.cx
to_alpha2 Country.cocos_keeling_islands = CountryAlpha2.cc
to_alpha2 Country.colombia = CountryAlpha2.co
to_alpha2 Country.comoros = CountryAlpha2.km
to_alpha2 Country.congo = CountryAlpha2.cg
to_alpha2 Country.congo_democratic_republic = CountryAlpha2.cd
to_alpha2 Country.cook_islands = CountryAlpha2.ck
to_alpha2 Country.costa_rica = CountryAlpha2.cr
to_alpha2 Country.coted_ivoire = CountryAlpha2.ci
to_alpha2 Country.croatia = CountryAlpha2.hr
to_alpha2 Country.cuba = CountryAlpha2.cu
to_alpha2 Country.curacao = CountryAlpha2.cw
to_alpha2 Country.cyprus = CountryAlpha2.cy
to_alpha2 Country.czechia = CountryAlpha2.cz
to_alpha2 Country.denmark = CountryAlpha2.dk
to_alpha2 Country.djibouti = CountryAlpha2.dj
to_alpha2 Country.dominica = CountryAlpha2.dm
to_alpha2 Country.dominican_republic = CountryAlpha2.«do»
to_alpha2 Country.ecuador = CountryAlpha2.ec
to_alpha2 Country.egypt = CountryAlpha2.eg
to_alpha2 Country.el_salvador = CountryAlpha2.sv
to_alpha2 Country.equatorial_guinea = CountryAlpha2.gq
to_alpha2 Country.eritrea = CountryAlpha2.er
to_alpha2 Country.estonia = CountryAlpha2.ee
to_alpha2 Country.ethiopia = CountryAlpha2.et
to_alpha2 Country.falkland_islands_malvinas = CountryAlpha2.fk
to_alpha2 Country.faroe_islands = CountryAlpha2.fo
to_alpha2 Country.fiji = CountryAlpha2.fj
to_alpha2 Country.finland = CountryAlpha2.fi
to_alpha2 Country.france = CountryAlpha2.fr
to_alpha2 Country.french_guiana = CountryAlpha2.gf
to_alpha2 Country.french_polynesia = CountryAlpha2.pf
to_alpha2 Country.french_southern_territories = CountryAlpha2.tf
to_alpha2 Country.gabon = CountryAlpha2.ga
to_alpha2 Country.gambia = CountryAlpha2.gm
to_alpha2 Country.georgia = CountryAlpha2.ge
to_alpha2 Country.germany = CountryAlpha2.de
to_alpha2 Country.ghana = CountryAlpha2.gh
to_alpha2 Country.gibraltar = CountryAlpha2.gi
to_alpha2 Country.greece = CountryAlpha2.gr
to_alpha2 Country.greenland = CountryAlpha2.gl
to_alpha2 Country.grenada = CountryAlpha2.gd
to_alpha2 Country.guadeloupe = CountryAlpha2.gp
to_alpha2 Country.guam = CountryAlpha2.gu
to_alpha2 Country.guatemala = CountryAlpha2.gt
to_alpha2 Country.guernsey = CountryAlpha2.gg
to_alpha2 Country.guinea = CountryAlpha2.gn
to_alpha2 Country.guinea_bissau = CountryAlpha2.gw
to_alpha2 Country.guyana = CountryAlpha2.gy
to_alpha2 Country.haiti = CountryAlpha2.ht
to_alpha2 Country.heard_island_and_mc_donald_islands = CountryAlpha2.hm
to_alpha2 Country.holy_see = CountryAlpha2.va
to_alpha2 Country.honduras = CountryAlpha2.hn
to_alpha2 Country.hong_kong = CountryAlpha2.hk
to_alpha2 Country.hungary = CountryAlpha2.hu
to_alpha2 Country.iceland = CountryAlpha2.is
to_alpha2 Country.india = CountryAlpha2.«in»
to_alpha2 Country.indonesia = CountryAlpha2.id
to_alpha2 Country.iran_islamic_republic = CountryAlpha2.ir
to_alpha2 Country.iraq = CountryAlpha2.iq
to_alpha2 Country.ireland = CountryAlpha2.ie
to_alpha2 Country.isle_of_man = CountryAlpha2.im
to_alpha2 Country.israel = CountryAlpha2.il
to_alpha2 Country.italy = CountryAlpha2.it
to_alpha2 Country.jamaica = CountryAlpha2.jm
to_alpha2 Country.japan = CountryAlpha2.jp
to_alpha2 Country.jersey = CountryAlpha2.je
to_alpha2 Country.jordan = CountryAlpha2.jo
to_alpha2 Country.kazakhstan = CountryAlpha2.kz
to_alpha2 Country.kenya = CountryAlpha2.ke
to_alpha2 Country.kiribati = CountryAlpha2.ki
to_alpha2 Country.korea_democratic_peoples_republic = CountryAlpha2.kp
to_alpha2 Country.korea_republic = CountryAlpha2.kr
to_alpha2 Country.kuwait = CountryAlpha2.kw
to_alpha2 Country.kyrgyzstan = CountryAlpha2.kg
to_alpha2 Country.lao_peoples_democratic_republic = CountryAlpha2.la
to_alpha2 Country.latvia = CountryAlpha2.lv
to_alpha2 Country.lebanon = CountryAlpha2.lb
to_alpha2 Country.lesotho = CountryAlpha2.ls
to_alpha2 Country.liberia = CountryAlpha2.lr
to_alpha2 Country.libya = CountryAlpha2.ly
to_alpha2 Country.liechtenstein = CountryAlpha2.li
to_alpha2 Country.lithuania = CountryAlpha2.lt
to_alpha2 Country.luxembourg = CountryAlpha2.lu
to_alpha2 Country.macao = CountryAlpha2.mo
to_alpha2 Country.macedonia_the_former_yugoslav_republic = CountryAlpha2.mk
to_alpha2 Country.madagascar = CountryAlpha2.mg
to_alpha2 Country.malawi = CountryAlpha2.mw
to_alpha2 Country.malaysia = CountryAlpha2.my
to_alpha2 Country.maldives = CountryAlpha2.mv
to_alpha2 Country.mali = CountryAlpha2.ml
to_alpha2 Country.malta = CountryAlpha2.mt
to_alpha2 Country.marshall_islands = CountryAlpha2.mh
to_alpha2 Country.martinique = CountryAlpha2.mq
to_alpha2 Country.mauritania = CountryAlpha2.mr
to_alpha2 Country.mauritius = CountryAlpha2.mu
to_alpha2 Country.mayotte = CountryAlpha2.yt
to_alpha2 Country.mexico = CountryAlpha2.mx
to_alpha2 Country.micronesia_federated_states = CountryAlpha2.fm
to_alpha2 Country.moldova_republic = CountryAlpha2.md
to_alpha2 Country.monaco = CountryAlpha2.mc
to_alpha2 Country.mongolia = CountryAlpha2.mn
to_alpha2 Country.montenegro = CountryAlpha2.me
to_alpha2 Country.montserrat = CountryAlpha2.ms
to_alpha2 Country.morocco = CountryAlpha2.ma
to_alpha2 Country.mozambique = CountryAlpha2.mz
to_alpha2 Country.myanmar = CountryAlpha2.mm
to_alpha2 Country.namibia = CountryAlpha2.na
to_alpha2 Country.nauru = CountryAlpha2.nr
to_alpha2 Country.nepal = CountryAlpha2.np
to_alpha2 Country.netherlands = CountryAlpha2.nl
to_alpha2 Country.new_caledonia = CountryAlpha2.nc
to_alpha2 Country.new_zealand = CountryAlpha2.nz
to_alpha2 Country.nicaragua = CountryAlpha2.ni
to_alpha2 Country.niger = CountryAlpha2.ne
to_alpha2 Country.nigeria = CountryAlpha2.ng
to_alpha2 Country.niue = CountryAlpha2.nu
to_alpha2 Country.norfolk_island = CountryAlpha2.nf
to_alpha2 Country.northern_mariana_islands = CountryAlpha2.mp
to_alpha2 Country.norway = CountryAlpha2.no
to_alpha2 Country.oman = CountryAlpha2.om
to_alpha2 Country.pakistan = CountryAlpha2.pk
to_alpha2 Country.palau = CountryAlpha2.pw
to_alpha2 Country.palestine_state = CountryAlpha2.ps
to_alpha2 Country.panama = CountryAlpha2.pa
to_alpha2 Country.papua_new_guinea = CountryAlpha2.pg
to_alpha2 Country.paraguay = CountryAlpha2.py
to_alpha2 Country.peru = CountryAlpha2.pe
to_alpha2 Country.philippines = CountryAlpha2.ph
to_alpha2 Country.pitcairn = CountryAlpha2.pn
to_alpha2 Country.poland = CountryAlpha2.pl
to_alpha2 Country.portugal = CountryAlpha2.pt
to_alpha2 Country.puerto_rico = CountryAlpha2.pr
to_alpha2 Country.qatar = CountryAlpha2.qa
to_alpha2 Country.reunion = CountryAlpha2.re
to_alpha2 Country.romania = CountryAlpha2.ro
to_alpha2 Country.russian_federation = CountryAlpha2.ru
to_alpha2 Country.rwanda = CountryAlpha2.rw
to_alpha2 Country.saint_barthelemy = CountryAlpha2.bl
to_alpha2 Country.saint_helena_ascension_and_tristanda_cunha = CountryAlpha2.sh
to_alpha2 Country.saint_kitts_and_nevis = CountryAlpha2.kn
to_alpha2 Country.saint_lucia = CountryAlpha2.lc
to_alpha2 Country.saint_martin_frenchpart = CountryAlpha2.mf
to_alpha2 Country.saint_pierre_and_miquelon = CountryAlpha2.pm
to_alpha2 Country.saint_vincent_and_the_grenadines = CountryAlpha2.vc
to_alpha2 Country.samoa = CountryAlpha2.ws
to_alpha2 Country.san_marino = CountryAlpha2.sm
to_alpha2 Country.sao_tome_and_principe = CountryAlpha2.st
to_alpha2 Country.saudi_arabia = CountryAlpha2.sa
to_alpha2 Country.senegal = CountryAlpha2.sn
to_alpha2 Country.serbia = CountryAlpha2.rs
to_alpha2 Country.seychelles = CountryAlpha2.sc
to_alpha2 Country.sierra_leone = CountryAlpha2.sl
to_alpha2 Country.singapore = CountryAlpha2.sg
to_alpha2 Country.sint_maarten_dutchpart = CountryAlpha2.sx
to_alpha2 Country.slovakia = CountryAlpha2.sk
to_alpha2 Country.slovenia = CountryAlpha2.si
to_alpha2 Country.solomon_islands = CountryAlpha2.sb
to_alpha2 Country.somalia = CountryAlpha2.so
to_alpha2 Country.south_africa = CountryAlpha2.za
to_alpha2 Country.south_georgia_and_the_south_sandwich_islands = CountryAlpha2.gs
to_alpha2 Country.south_sudan = CountryAlpha2.ss
to_alpha2 Country.spain = CountryAlpha2.es
to_alpha2 Country.sri_lanka = CountryAlpha2.lk
to_alpha2 Country.sudan = CountryAlpha2.sd
to_alpha2 Country.suriname = CountryAlpha2.sr
to_alpha2 Country.svalbard_and_jan_mayen = CountryAlpha2.sj
to_alpha2 Country.swaziland = CountryAlpha2.sz
to_alpha2 Country.sweden = CountryAlpha2.se
to_alpha2 Country.switzerland = CountryAlpha2.ch
to_alpha2 Country.syrian_arab_republic = CountryAlpha2.sy
to_alpha2 Country.taiwan_province_of_china = CountryAlpha2.tw
to_alpha2 Country.tajikistan = CountryAlpha2.tj
to_alpha2 Country.tanzania_united_republic = CountryAlpha2.tz
to_alpha2 Country.thailand = CountryAlpha2.th
to_alpha2 Country.timor_leste = CountryAlpha2.tl
to_alpha2 Country.togo = CountryAlpha2.tg
to_alpha2 Country.tokelau = CountryAlpha2.tk
to_alpha2 Country.tonga = CountryAlpha2.to
to_alpha2 Country.trinidad_and_tobago = CountryAlpha2.tt
to_alpha2 Country.tunisia = CountryAlpha2.tn
to_alpha2 Country.turkey = CountryAlpha2.tr
to_alpha2 Country.turkmenistan = CountryAlpha2.tm
to_alpha2 Country.turks_and_caicos_islands = CountryAlpha2.tc
to_alpha2 Country.tuvalu = CountryAlpha2.tv
to_alpha2 Country.uganda = CountryAlpha2.ug
to_alpha2 Country.ukraine = CountryAlpha2.ua
to_alpha2 Country.united_arab_emirates = CountryAlpha2.ae
to_alpha2 Country.united_kingdom_of_great_britain_and_northern_ireland = CountryAlpha2.gb
to_alpha2 Country.united_states_of_america = CountryAlpha2.us
to_alpha2 Country.united_states_minor_outlying_islands = CountryAlpha2.um
to_alpha2 Country.uruguay = CountryAlpha2.uy
to_alpha2 Country.uzbekistan = CountryAlpha2.uz
to_alpha2 Country.vanuatu = CountryAlpha2.vu
to_alpha2 Country.venezuela_bolivarian_republic = CountryAlpha2.ve
to_alpha2 Country.vietnam = CountryAlpha2.vn
to_alpha2 Country.virgin_islands_british = CountryAlpha2.vg
to_alpha2 Country.virgin_islands_us = CountryAlpha2.vi
to_alpha2 Country.wallis_and_futuna = CountryAlpha2.wf
to_alpha2 Country.western_sahara = CountryAlpha2.eh
to_alpha2 Country.yemen = CountryAlpha2.ye
to_alpha2 Country.zambia = CountryAlpha2.zm
to_alpha2 Country.zimbabwe = CountryAlpha2.zw
