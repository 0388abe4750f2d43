-- ===== src/Enums/Currency/Types.antt =====
-- `Currency` of crates/common_enums/src/enums.rs.
pub data Currency : Type 0 where
  aed all amd ang aoa ars aud awg azn bam bbd bdt bgn bhd bif bmd bnd bob brl bsd : Currency
  bwp byn bzd cad chf clp cny cop crc cup cve czk djf dkk dop dzd egp etb eur fjd : Currency
  fkp gbp gel ghs gip gmd gnf gtq gyd hkd hnl hrk htg huf idr ils inr iqd jmd jod : Currency
  jpy kes kgs khr kmf krw kwd kyd kzt lak lbp lkr lrd lsl lyd mad mdl mga mkd mmk : Currency
  mnt mop mru mur mvr mwk mxn myr mzn nad ngn nio nok npr nzd omr pab pen pgk php : Currency
  pkr pln pyg qar ron rsd rub rwf sar sbd scr sek sgd shp sle sll sos srd ssp stn : Currency
  svc szl thb tnd top try ttd twd tzs uah ugx usd uyu uzs ves vnd vuv wst xaf xcd : Currency
  xof xpf yer zar zmw : Currency
