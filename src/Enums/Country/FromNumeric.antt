-- ===== src/Enums/Country/FromNumeric.antt =====
-- `Country::from_numeric` of crates/common_enums/src/transformers.rs: the arms of its match in order,
-- then the arm `_`.
use mercado.Prelude.{ℕ, ◌==◌, if◌then◌else◌, List, [], ◌∷◌}
use mercado.Prelude.Results.{Result, ok, err}
use mercado.Enums.Country.Types.{Country}

pub data NumericCountryCodeParseError : Type 0 where
  invalid_country_code : NumericCountryCodeParseError

abbrev pub numeric_arms : List (ℕ × Country)
numeric_arms =
    (4, Country.afghanistan)
    ∷ (248, Country.aland_islands)
    ∷ (8, Country.albania)
    ∷ (12, Country.algeria)
    ∷ (16, Country.american_samoa)
    ∷ (20, Country.andorra)
    ∷ (24, Country.angola)
    ∷ (660, Country.anguilla)
    ∷ (10, Country.antarctica)
    ∷ (28, Country.antigua_and_barbuda)
    ∷ (32, Country.argentina)
    ∷ (51, Country.armenia)
    ∷ (533, Country.aruba)
    ∷ (36, Country.australia)
    ∷ (40, Country.austria)
    ∷ (31, Country.azerbaijan)
    ∷ (44, Country.bahamas)
    ∷ (48, Country.bahrain)
    ∷ (50, Country.bangladesh)
    ∷ (52, Country.barbados)
    ∷ (112, Country.belarus)
    ∷ (56, Country.belgium)
    ∷ (84, Country.belize)
    ∷ (204, Country.benin)
    ∷ (60, Country.bermuda)
    ∷ (64, Country.bhutan)
    ∷ (68, Country.bolivia_plurinational_state)
    ∷ (535, Country.bonaire_sint_eustatius_and_saba)
    ∷ (70, Country.bosnia_and_herzegovina)
    ∷ (72, Country.botswana)
    ∷ (74, Country.bouvet_island)
    ∷ (76, Country.brazil)
    ∷ (86, Country.british_indian_ocean_territory)
    ∷ (96, Country.brunei_darussalam)
    ∷ (100, Country.bulgaria)
    ∷ (854, Country.burkina_faso)
    ∷ (108, Country.burundi)
    ∷ (132, Country.cabo_verde)
    ∷ (116, Country.cambodia)
    ∷ (120, Country.cameroon)
    ∷ (124, Country.canada)
    ∷ (136, Country.cayman_islands)
    ∷ (140, Country.central_african_republic)
    ∷ (148, Country.chad)
    ∷ (152, Country.chile)
    ∷ (156, Country.china)
    ∷ (162, Country.christmas_island)
    ∷ (166, Country.cocos_keeling_islands)
    ∷ (170, Country.colombia)
    ∷ (174, Country.comoros)
    ∷ (178, Country.congo)
    ∷ (180, Country.congo_democratic_republic)
    ∷ (184, Country.cook_islands)
    ∷ (188, Country.costa_rica)
    ∷ (384, Country.coted_ivoire)
    ∷ (191, Country.croatia)
    ∷ (192, Country.cuba)
    ∷ (531, Country.curacao)
    ∷ (196, Country.cyprus)
    ∷ (203, Country.czechia)
    ∷ (208, Country.denmark)
    ∷ (262, Country.djibouti)
    ∷ (212, Country.dominica)
    ∷ (214, Country.dominican_republic)
    ∷ (218, Country.ecuador)
    ∷ (818, Country.egypt)
    ∷ (222, Country.el_salvador)
    ∷ (226, Country.equatorial_guinea)
    ∷ (232, Country.eritrea)
    ∷ (233, Country.estonia)
    ∷ (231, Country.ethiopia)
    ∷ (238, Country.falkland_islands_malvinas)
    ∷ (234, Country.faroe_islands)
    ∷ (242, Country.fiji)
    ∷ (246, Country.finland)
    ∷ (250, Country.france)
    ∷ (254, Country.french_guiana)
    ∷ (258, Country.french_polynesia)
    ∷ (260, Country.french_southern_territories)
    ∷ (266, Country.gabon)
    ∷ (270, Country.gambia)
    ∷ (268, Country.georgia)
    ∷ (276, Country.germany)
    ∷ (288, Country.ghana)
    ∷ (292, Country.gibraltar)
    ∷ (300, Country.greece)
    ∷ (304, Country.greenland)
    ∷ (308, Country.grenada)
    ∷ (312, Country.guadeloupe)
    ∷ (316, Country.guam)
    ∷ (320, Country.guatemala)
    ∷ (831, Country.guernsey)
    ∷ (324, Country.guinea)
    ∷ (624, Country.guinea_bissau)
    ∷ (328, Country.guyana)
    ∷ (332, Country.haiti)
    ∷ (334, Country.heard_island_and_mc_donald_islands)
    ∷ (336, Country.holy_see)
    ∷ (340, Country.honduras)
    ∷ (344, Country.hong_kong)
    ∷ (348, Country.hungary)
    ∷ (352, Country.iceland)
    ∷ (356, Country.india)
    ∷ (360, Country.indonesia)
    ∷ (364, Country.iran_islamic_republic)
    ∷ (368, Country.iraq)
    ∷ (372, Country.ireland)
    ∷ (833, Country.isle_of_man)
    ∷ (376, Country.israel)
    ∷ (380, Country.italy)
    ∷ (388, Country.jamaica)
    ∷ (392, Country.japan)
    ∷ (832, Country.jersey)
    ∷ (400, Country.jordan)
    ∷ (398, Country.kazakhstan)
    ∷ (404, Country.kenya)
    ∷ (296, Country.kiribati)
    ∷ (408, Country.korea_democratic_peoples_republic)
    ∷ (410, Country.korea_republic)
    ∷ (414, Country.kuwait)
    ∷ (417, Country.kyrgyzstan)
    ∷ (418, Country.lao_peoples_democratic_republic)
    ∷ (428, Country.latvia)
    ∷ (422, Country.lebanon)
    ∷ (426, Country.lesotho)
    ∷ (430, Country.liberia)
    ∷ (434, Country.libya)
    ∷ (438, Country.liechtenstein)
    ∷ (440, Country.lithuania)
    ∷ (442, Country.luxembourg)
    ∷ (446, Country.macao)
    ∷ (807, Country.macedonia_the_former_yugoslav_republic)
    ∷ (450, Country.madagascar)
    ∷ (454, Country.malawi)
    ∷ (458, Country.malaysia)
    ∷ (462, Country.maldives)
    ∷ (466, Country.mali)
    ∷ (470, Country.malta)
    ∷ (584, Country.marshall_islands)
    ∷ (474, Country.martinique)
    ∷ (478, Country.mauritania)
    ∷ (480, Country.mauritius)
    ∷ (175, Country.mayotte)
    ∷ (484, Country.mexico)
    ∷ (583, Country.micronesia_federated_states)
    ∷ (498, Country.moldova_republic)
    ∷ (492, Country.monaco)
    ∷ (496, Country.mongolia)
    ∷ (499, Country.montenegro)
    ∷ (500, Country.montserrat)
    ∷ (504, Country.morocco)
    ∷ (508, Country.mozambique)
    ∷ (104, Country.myanmar)
    ∷ (516, Country.namibia)
    ∷ (520, Country.nauru)
    ∷ (524, Country.nepal)
    ∷ (528, Country.netherlands)
    ∷ (540, Country.new_caledonia)
    ∷ (554, Country.new_zealand)
    ∷ (558, Country.nicaragua)
    ∷ (562, Country.niger)
    ∷ (566, Country.nigeria)
    ∷ (570, Country.niue)
    ∷ (574, Country.norfolk_island)
    ∷ (580, Country.northern_mariana_islands)
    ∷ (578, Country.norway)
    ∷ (512, Country.oman)
    ∷ (586, Country.pakistan)
    ∷ (585, Country.palau)
    ∷ (275, Country.palestine_state)
    ∷ (591, Country.panama)
    ∷ (598, Country.papua_new_guinea)
    ∷ (600, Country.paraguay)
    ∷ (604, Country.peru)
    ∷ (608, Country.philippines)
    ∷ (612, Country.pitcairn)
    ∷ (616, Country.poland)
    ∷ (620, Country.portugal)
    ∷ (630, Country.puerto_rico)
    ∷ (634, Country.qatar)
    ∷ (638, Country.reunion)
    ∷ (642, Country.romania)
    ∷ (643, Country.russian_federation)
    ∷ (646, Country.rwanda)
    ∷ (652, Country.saint_barthelemy)
    ∷ (654, Country.saint_helena_ascension_and_tristanda_cunha)
    ∷ (659, Country.saint_kitts_and_nevis)
    ∷ (662, Country.saint_lucia)
    ∷ (663, Country.saint_martin_frenchpart)
    ∷ (666, Country.saint_pierre_and_miquelon)
    ∷ (670, Country.saint_vincent_and_the_grenadines)
    ∷ (882, Country.samoa)
    ∷ (674, Country.san_marino)
    ∷ (678, Country.sao_tome_and_principe)
    ∷ (682, Country.saudi_arabia)
    ∷ (686, Country.senegal)
    ∷ (688, Country.serbia)
    ∷ (690, Country.seychelles)
    ∷ (694, Country.sierra_leone)
    ∷ (702, Country.singapore)
    ∷ (534, Country.sint_maarten_dutchpart)
    ∷ (703, Country.slovakia)
    ∷ (705, Country.slovenia)
    ∷ (90, Country.solomon_islands)
    ∷ (706, Country.somalia)
    ∷ (710, Country.south_africa)
    ∷ (239, Country.south_georgia_and_the_south_sandwich_islands)
    ∷ (728, Country.south_sudan)
    ∷ (724, Country.spain)
    ∷ (144, Country.sri_lanka)
    ∷ (729, Country.sudan)
    ∷ (740, Country.suriname)
    ∷ (744, Country.svalbard_and_jan_mayen)
    ∷ (748, Country.swaziland)
    ∷ (752, Country.sweden)
    ∷ (756, Country.switzerland)
    ∷ (760, Country.syrian_arab_republic)
    ∷ (158, Country.taiwan_province_of_china)
    ∷ (762, Country.tajikistan)
    ∷ (834, Country.tanzania_united_republic)
    ∷ (764, Country.thailand)
    ∷ (626, Country.timor_leste)
    ∷ (768, Country.togo)
    ∷ (772, Country.tokelau)
    ∷ (776, Country.tonga)
    ∷ (780, Country.trinidad_and_tobago)
    ∷ (788, Country.tunisia)
    ∷ (792, Country.turkey)
    ∷ (795, Country.turkmenistan)
    ∷ (796, Country.turks_and_caicos_islands)
    ∷ (798, Country.tuvalu)
    ∷ (800, Country.uganda)
    ∷ (804, Country.ukraine)
    ∷ (784, Country.united_arab_emirates)
    ∷ (826, Country.united_kingdom_of_great_britain_and_northern_ireland)
    ∷ (840, Country.united_states_of_america)
    ∷ (581, Country.united_states_minor_outlying_islands)
    ∷ (858, Country.uruguay)
    ∷ (860, Country.uzbekistan)
    ∷ (548, Country.vanuatu)
    ∷ (862, Country.venezuela_bolivarian_republic)
    ∷ (704, Country.vietnam)
    ∷ (92, Country.virgin_islands_british)
    ∷ (850, Country.virgin_islands_us)
    ∷ (876, Country.wallis_and_futuna)
    ∷ (732, Country.western_sahara)
    ∷ (887, Country.yemen)
    ∷ (894, Country.zambia)
    ∷ (716, Country.zimbabwe)
    ∷ []

unfoldable pub first_arm : {A : Type 0} → ℕ → List (ℕ × A) → Result NumericCountryCodeParseError A
first_arm code [] = err invalid_country_code
first_arm code ((n, a) ∷ arms) = if code == n then ok a else first_arm code arms

unfoldable pub from_numeric : ℕ → Result NumericCountryCodeParseError Country
unfolding first_arm
from_numeric code = first_arm code numeric_arms
