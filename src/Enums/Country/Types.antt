-- ===== src/Enums/Country/Types.antt =====
-- The country enumerations of crates/common_enums/src/enums.rs: ISO 3166-1 alpha-2 and alpha-3 codes
-- and the named countries. A code that is a reserved word is an escaped name.

pub data CountryAlpha2 : Type 0 where
  af ax al dz «as» ad ao ai aq ag ar am aw au at az bs bh bd bb by be bz bj bm bt : CountryAlpha2
  bo bq ba bw bv br io bn bg bf bi kh cm ca cv ky cf td cl cn cx cc co km cg cd : CountryAlpha2
  ck cr ci hr cu cw cy cz dk dj dm «do» ec eg sv gq er ee et fk fo fj fi fr gf pf : CountryAlpha2
  tf ga gm ge de gh gi gr gl gd gp gu gt gg gn gw gy ht hm va hn hk hu is «in» id : CountryAlpha2
  ir iq ie im il it jm jp je jo kz ke ki kp kr kw kg la lv lb ls lr ly li lt lu : CountryAlpha2
  mo mk mg mw my mv ml mt mh mq mr mu yt mx fm md mc mn me ms ma mz mm na nr np : CountryAlpha2
  nl nc nz ni ne ng nu nf mp no om pk pw ps pa pg py pe ph pn pl pt pr qa re ro : CountryAlpha2
  ru rw bl sh kn lc mf pm vc ws sm st sa sn rs sc sl sg sx sk si sb so za gs ss : CountryAlpha2
  es lk sd sr sj sz se ch sy tw tj tz th tl tg tk to tt tn tr tm tc tv ug ua ae : CountryAlpha2
  gb um uy uz vu ve vn vg vi wf eh ye zm zw us : CountryAlpha2

pub data CountryAlpha3 : Type 0 where
  afg ala alb dza asm and ago aia ata atg arg arm abw aus aut aze bhs bhr bgd brb : CountryAlpha3
  blr bel blz ben bmu btn bol bes bih bwa bvt bra iot brn bgr bfa bdi cpv khm cmr : CountryAlpha3
  can cym caf tcd chl chn cxr cck col «com» cog cod cok cri civ hrv cub cuw cyp : CountryAlpha3
  cze dnk dji dma dom ecu egy slv gnq eri est eth flk fro fji fin fra guf pyf atf : CountryAlpha3
  gab gmb geo deu gha gib grc grl grd glp gum gtm ggy gin gnb guy hti hmd vat hnd : CountryAlpha3
  hkg hun isl ind idn irn irq irl imn isr ita jam jpn jey jor kaz ken kir prk kor : CountryAlpha3
  kwt kgz lao lva lbn lso lbr lby lie ltu lux mac mkd mdg mwi mys mdv mli mlt mhl : CountryAlpha3
  mtq mrt mus myt mex fsm mda mco mng mne msr mar moz mmr nam nru npl nld ncl nzl : CountryAlpha3
  nic ner nga niu nfk mnp nor omn pak plw pse pan png pry per phl pcn pol prt pri : CountryAlpha3
  qat reu rou rus rwa blm shn kna lca maf spm vct wsm smr stp sau sen srb syc sle : CountryAlpha3
  sgp sxm svk svn slb som zaf sgs ssd esp lka sdn sur sjm swz swe che syr twn tjk : CountryAlpha3
  tza tha tls tgo tkl ton tto tun tur tkm tca tuv uga ukr are gbr usa umi ury uzb : CountryAlpha3
  vut ven vnm vgb vir wlf esh yem zmb zwe : CountryAlpha3

pub data Country : Type 0 where
  afghanistan aland_islands albania algeria american_samoa andorra angola anguilla : Country
  antarctica antigua_and_barbuda argentina armenia aruba australia austria azerbaijan : Country
  bahamas bahrain bangladesh barbados belarus belgium belize benin bermuda bhutan : Country
  bolivia_plurinational_state bonaire_sint_eustatius_and_saba bosnia_and_herzegovina : Country
  botswana bouvet_island brazil british_indian_ocean_territory brunei_darussalam : Country
  bulgaria burkina_faso burundi cabo_verde cambodia cameroon canada cayman_islands : Country
  central_african_republic chad chile china christmas_island cocos_keeling_islands : Country
  colombia comoros congo congo_democratic_republic cook_islands costa_rica coted_ivoire : Country
  croatia cuba curacao cyprus czechia denmark djibouti dominica dominican_republic : Country
  ecuador egypt el_salvador equatorial_guinea eritrea estonia ethiopia : Country
  falkland_islands_malvinas faroe_islands fiji finland france french_guiana : Country
  french_polynesia french_southern_territories gabon gambia georgia germany ghana : Country
  gibraltar greece greenland grenada guadeloupe guam guatemala guernsey guinea : Country
  guinea_bissau guyana haiti heard_island_and_mc_donald_islands holy_see honduras : Country
  hong_kong hungary iceland india indonesia iran_islamic_republic iraq ireland : Country
  isle_of_man israel italy jamaica japan jersey jordan kazakhstan kenya kiribati : Country
  korea_democratic_peoples_republic korea_republic kuwait kyrgyzstan : Country
  lao_peoples_democratic_republic latvia lebanon lesotho liberia libya liechtenstein : Country
  lithuania luxembourg macao macedonia_the_former_yugoslav_republic madagascar malawi : Country
  malaysia maldives mali malta marshall_islands martinique mauritania mauritius mayotte : Country
  mexico micronesia_federated_states moldova_republic monaco mongolia montenegro : Country
  montserrat morocco mozambique myanmar namibia nauru nepal netherlands new_caledonia : Country
  new_zealand nicaragua niger nigeria niue norfolk_island northern_mariana_islands : Country
  norway oman pakistan palau palestine_state panama papua_new_guinea paraguay peru : Country
  philippines pitcairn poland portugal puerto_rico qatar reunion romania : Country
  russian_federation rwanda saint_barthelemy saint_helena_ascension_and_tristanda_cunha : Country
  saint_kitts_and_nevis saint_lucia saint_martin_frenchpart saint_pierre_and_miquelon : Country
  saint_vincent_and_the_grenadines samoa san_marino sao_tome_and_principe saudi_arabia : Country
  senegal serbia seychelles sierra_leone singapore sint_maarten_dutchpart slovakia : Country
  slovenia solomon_islands somalia south_africa : Country
  south_georgia_and_the_south_sandwich_islands south_sudan spain sri_lanka sudan : Country
  suriname svalbard_and_jan_mayen swaziland sweden switzerland syrian_arab_republic : Country
  taiwan_province_of_china tajikistan tanzania_united_republic thailand timor_leste : Country
  togo tokelau tonga trinidad_and_tobago tunisia turkey turkmenistan : Country
  turks_and_caicos_islands tuvalu uganda ukraine united_arab_emirates : Country
  united_kingdom_of_great_britain_and_northern_ireland united_states_of_america : Country
  united_states_minor_outlying_islands uruguay uzbekistan vanuatu : Country
  venezuela_bolivarian_republic vietnam virgin_islands_british virgin_islands_us : Country
  wallis_and_futuna western_sahara yemen zambia zimbabwe : Country
