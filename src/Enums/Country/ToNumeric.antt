-- ===== src/Enums/Country/ToNumeric.antt =====
-- `Country::to_numeric` of crates/common_enums/src/transformers.rs.
use mercado.Enums.Country.Types.{Country}
use mercado.Prelude.{ℕ}

unfoldable pub to_numeric : Country → ℕ
to_numeric Country.afghanistan = 4
to_numeric Country.aland_islands = 248
to_numeric Country.albania = 8
to_numeric Country.algeria = 12
to_numeric Country.american_samoa = 16
to_numeric Country.andorra = 20
to_numeric Country.angola = 24
to_numeric Country.anguilla = 660
to_numeric Country.antarctica = 10
to_numeric Country.antigua_and_barbuda = 28
to_numeric Country.argentina = 32
to_numeric Country.armenia = 51
to_numeric Country.aruba = 533
to_numeric Country.australia = 36
to_numeric Country.austria = 40
to_numeric Country.azerbaijan = 31
to_numeric Country.bahamas = 44
to_numeric Country.bahrain = 48
to_numeric Country.bangladesh = 50
to_numeric Country.barbados = 52
to_numeric Country.belarus = 112
to_numeric Country.belgium = 56
to_numeric Country.belize = 84
to_numeric Country.benin = 204
to_numeric Country.bermuda = 60
to_numeric Country.bhutan = 64
to_numeric Country.bolivia_plurinational_state = 68
to_numeric Country.bonaire_sint_eustatius_and_saba = 535
to_numeric Country.bosnia_and_herzegovina = 70
to_numeric Country.botswana = 72
to_numeric Country.bouvet_island = 74
to_numeric Country.brazil = 76
to_numeric Country.british_indian_ocean_territory = 86
to_numeric Country.brunei_darussalam = 96
to_numeric Country.bulgaria = 100
to_numeric Country.burkina_faso = 854
to_numeric Country.burundi = 108
to_numeric Country.cabo_verde = 132
to_numeric Country.cambodia = 116
to_numeric Country.cameroon = 120
to_numeric Country.canada = 124
to_numeric Country.cayman_islands = 136
to_numeric Country.central_african_republic = 140
to_numeric Country.chad = 148
to_numeric Country.chile = 152
to_numeric Country.china = 156
to_numeric Country.christmas_island = 162
to_numeric Country.cocos_keeling_islands = 166
to_numeric Country.colombia = 170
to_numeric Country.comoros = 174
to_numeric Country.congo = 178
to_numeric Country.congo_democratic_republic = 180
to_numeric Country.cook_islands = 184
to_numeric Country.costa_rica = 188
to_numeric Country.coted_ivoire = 384
to_numeric Country.croatia = 191
to_numeric Country.cuba = 192
to_numeric Country.curacao = 531
to_numeric Country.cyprus = 196
to_numeric Country.czechia = 203
to_numeric Country.denmark = 208
to_numeric Country.djibouti = 262
to_numeric Country.dominica = 212
to_numeric Country.dominican_republic = 214
to_numeric Country.ecuador = 218
to_numeric Country.egypt = 818
to_numeric Country.el_salvador = 222
to_numeric Country.equatorial_guinea = 226
to_numeric Country.eritrea = 232
to_numeric Country.estonia = 233
to_numeric Country.ethiopia = 231
to_numeric Country.falkland_islands_malvinas = 238
to_numeric Country.faroe_islands = 234
to_numeric Country.fiji = 242
to_numeric Country.finland = 246
to_numeric Country.france = 250
to_numeric Country.french_guiana = 254
to_numeric Country.french_polynesia = 258
to_numeric Country.french_southern_territories = 260
to_numeric Country.gabon = 266
to_numeric Country.gambia = 270
to_numeric Country.georgia = 268
to_numeric Country.germany = 276
to_numeric Country.ghana = 288
to_numeric Country.gibraltar = 292
to_numeric Country.greece = 300
to_numeric Country.greenland = 304
to_numeric Country.grenada = 308
to_numeric Country.guadeloupe = 312
to_numeric Country.guam = 316
to_numeric Country.guatemala = 320
to_numeric Country.guernsey = 831
to_numeric Country.guinea = 324
to_numeric Country.guinea_bissau = 624
to_numeric Country.guyana = 328
to_numeric Country.haiti = 332
to_numeric Country.heard_island_and_mc_donald_islands = 334
to_numeric Country.holy_see = 336
to_numeric Country.honduras = 340
to_numeric Country.hong_kong = 344
to_numeric Country.hungary = 348
to_numeric Country.iceland = 352
to_numeric Country.india = 356
to_numeric Country.indonesia = 360
to_numeric Country.iran_islamic_republic = 364
to_numeric Country.iraq = 368
to_numeric Country.ireland = 372
to_numeric Country.isle_of_man = 833
to_numeric Country.israel = 376
to_numeric Country.italy = 380
to_numeric Country.jamaica = 388
to_numeric Country.japan = 392
to_numeric Country.jersey = 832
to_numeric Country.jordan = 400
to_numeric Country.kazakhstan = 398
to_numeric Country.kenya = 404
to_numeric Country.kiribati = 296
to_numeric Country.korea_democratic_peoples_republic = 408
to_numeric Country.korea_republic = 410
to_numeric Country.kuwait = 414
to_numeric Country.kyrgyzstan = 417
to_numeric Country.lao_peoples_democratic_republic = 418
to_numeric Country.latvia = 428
to_numeric Country.lebanon = 422
to_numeric Country.lesotho = 426
to_numeric Country.liberia = 430
to_numeric Country.libya = 434
to_numeric Country.liechtenstein = 438
to_numeric Country.lithuania = 440
to_numeric Country.luxembourg = 442
to_numeric Country.macao = 446
to_numeric Country.macedonia_the_former_yugoslav_republic = 807
to_numeric Country.madagascar = 450
to_numeric Country.malawi = 454
to_numeric Country.malaysia = 458
to_numeric Country.maldives = 462
to_numeric Country.mali = 466
to_numeric Country.malta = 470
to_numeric Country.marshall_islands = 584
to_numeric Country.martinique = 474
to_numeric Country.mauritania = 478
to_numeric Country.mauritius = 480
to_numeric Country.mayotte = 175
to_numeric Country.mexico = 484
to_numeric Country.micronesia_federated_states = 583
to_numeric Country.moldova_republic = 498
to_numeric Country.monaco = 492
to_numeric Country.mongolia = 496
to_numeric Country.montenegro = 499
to_numeric Country.montserrat = 500
to_numeric Country.morocco = 504
to_numeric Country.mozambique = 508
to_numeric Country.myanmar = 104
to_numeric Country.namibia = 516
to_numeric Country.nauru = 520
to_numeric Country.nepal = 524
to_numeric Country.netherlands = 528
to_numeric Country.new_caledonia = 540
to_numeric Country.new_zealand = 554
to_numeric Country.nicaragua = 558
to_numeric Country.niger = 562
to_numeric Country.nigeria = 566
to_numeric Country.niue = 570
to_numeric Country.norfolk_island = 574
to_numeric Country.northern_mariana_islands = 580
to_numeric Country.norway = 578
to_numeric Country.oman = 512
to_numeric Country.pakistan = 586
to_numeric Country.palau = 585
to_numeric Country.palestine_state = 275
to_numeric Country.panama = 591
to_numeric Country.papua_new_guinea = 598
to_numeric Country.paraguay = 600
to_numeric Country.peru = 604
to_numeric Country.philippines = 608
to_numeric Country.pitcairn = 612
to_numeric Country.poland = 616
to_numeric Country.portugal = 620
to_numeric Country.puerto_rico = 630
to_numeric Country.qatar = 634
to_numeric Country.reunion = 638
to_numeric Country.romania = 642
to_numeric Country.russian_federation = 643
to_numeric Country.rwanda = 646
to_numeric Country.saint_barthelemy = 652
to_numeric Country.saint_helena_ascension_and_tristanda_cunha = 654
to_numeric Country.saint_kitts_and_nevis = 659
to_numeric Country.saint_lucia = 662
to_numeric Country.saint_martin_frenchpart = 663
to_numeric Country.saint_pierre_and_miquelon = 666
to_numeric Country.saint_vincent_and_the_grenadines = 670
to_numeric Country.samoa = 882
to_numeric Country.san_marino = 674
to_numeric Country.sao_tome_and_principe = 678
to_numeric Country.saudi_arabia = 682
to_numeric Country.senegal = 686
to_numeric Country.serbia = 688
to_numeric Country.seychelles = 690
to_numeric Country.sierra_leone = 694
to_numeric Country.singapore = 702
to_numeric Country.sint_maarten_dutchpart = 534
to_numeric Country.slovakia = 703
to_numeric Country.slovenia = 705
to_numeric Country.solomon_islands = 90
to_numeric Country.somalia = 706
to_numeric Country.south_africa = 710
to_numeric Country.south_georgia_and_the_south_sandwich_islands = 239
to_numeric Country.south_sudan = 728
to_numeric Country.spain = 724
to_numeric Country.sri_lanka = 144
to_numeric Country.sudan = 729
to_numeric Country.suriname = 740
to_numeric Country.svalbard_and_jan_mayen = 744
to_numeric Country.swaziland = 748
to_numeric Country.sweden = 752
to_numeric Country.switzerland = 756
to_numeric Country.syrian_arab_republic = 760
to_numeric Country.taiwan_province_of_china = 158
to_numeric Country.tajikistan = 762
to_numeric Country.tanzania_united_republic = 834
to_numeric Country.thailand = 764
to_numeric Country.timor_leste = 626
to_numeric Country.togo = 768
to_numeric Country.tokelau = 772
to_numeric Country.tonga = 776
to_numeric Country.trinidad_and_tobago = 780
to_numeric Country.tunisia = 788
to_numeric Country.turkey = 792
to_numeric Country.turkmenistan = 795
to_numeric Country.turks_and_caicos_islands = 796
to_numeric Country.tuvalu = 798
to_numeric Country.uganda = 800
to_numeric Country.ukraine = 804
to_numeric Country.united_arab_emirates = 784
to_numeric Country.united_kingdom_of_great_britain_and_northern_ireland = 826
to_numeric Country.united_states_of_america = 840
to_numeric Country.united_states_minor_outlying_islands = 581
to_numeric Country.uruguay = 858
to_numeric Country.uzbekistan = 860
to_numeric Country.vanuatu = 548
to_numeric Country.venezuela_bolivarian_republic = 862
to_numeric Country.vietnam = 704
to_numeric Country.virgin_islands_british = 92
to_numeric Country.virgin_islands_us = 850
to_numeric Country.wallis_and_futuna = 876
to_numeric Country.western_sahara = 732
to_numeric Country.yemen = 887
to_numeric Country.zambia = 894
to_numeric Country.zimbabwe = 716
