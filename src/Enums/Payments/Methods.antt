-- ===== src/Enums/Payments/Methods.antt =====
-- The payment methods of crates/common_enums, src/enums.rs and src/transformers.rs.

pub data PaymentMethod : Type 0 where
  card card_redirect pay_later wallet : PaymentMethod
  bank_redirect bank_transfer crypto bank_debit : PaymentMethod
  reward upi voucher gift_card : PaymentMethod

pub data PaymentMethodType : Type 0 where
  ach affirm afterpay_clearpay alfamart : PaymentMethodType
  ali_pay ali_pay_hk alma apple_pay : PaymentMethodType
  atome bacs bancontact_card becs : PaymentMethodType
  benefit bizum blik boleto : PaymentMethodType
  bca_bank_transfer bni_va bri_va card_redirect : PaymentMethodType
  cimb_va classic_reward credit crypto_currency : PaymentMethodType
  cashapp dana danamon_va debit : PaymentMethodType
  efecty eps evoucher giropay : PaymentMethodType
  givex google_pay go_pay gcash : PaymentMethodType
  ideal interac indomaret klarna : PaymentMethodType
  kakao_pay mandiri_va knet mb_way : PaymentMethodType
  mobile_pay momo momo_atm multibanco : PaymentMethodType
  online_banking_thailand online_banking_czech_republic online_banking_finland online_banking_fpx :
      PaymentMethodType
  online_banking_poland online_banking_slovakia oxxo pago_efectivo : PaymentMethodType
  permata_bank_transfer open_banking_uk pay_bright paypal : PaymentMethodType
  pix pay_safe_card przelewy_24 pse : PaymentMethodType
  red_compra red_pagos samsung_pay sepa : PaymentMethodType
  sofort swish touch_n_go trustly : PaymentMethodType
  twint upi_collect vipps walley : PaymentMethodType
  we_chat_pay seven_eleven lawson mini_stop : PaymentMethodType
  family_mart seicomart pay_easy : PaymentMethodType

-- `PaymentMethod::from`
unfoldable pub payment_method_from : PaymentMethodType → PaymentMethod
payment_method_from PaymentMethodType.ach = PaymentMethod.bank_debit
payment_method_from PaymentMethodType.affirm = PaymentMethod.pay_later
payment_method_from PaymentMethodType.afterpay_clearpay = PaymentMethod.pay_later
payment_method_from PaymentMethodType.ali_pay = PaymentMethod.wallet
payment_method_from PaymentMethodType.ali_pay_hk = PaymentMethod.wallet
payment_method_from PaymentMethodType.alma = PaymentMethod.pay_later
payment_method_from PaymentMethodType.apple_pay = PaymentMethod.wallet
payment_method_from PaymentMethodType.bacs = PaymentMethod.bank_debit
payment_method_from PaymentMethodType.bancontact_card = PaymentMethod.bank_redirect
payment_method_from PaymentMethodType.bca_bank_transfer = PaymentMethod.bank_transfer
payment_method_from PaymentMethodType.becs = PaymentMethod.bank_debit
payment_method_from PaymentMethodType.bni_va = PaymentMethod.bank_transfer
payment_method_from PaymentMethodType.bri_va = PaymentMethod.bank_transfer
payment_method_from PaymentMethodType.benefit = PaymentMethod.card_redirect
payment_method_from PaymentMethodType.bizum = PaymentMethod.bank_redirect
payment_method_from PaymentMethodType.blik = PaymentMethod.bank_redirect
payment_method_from PaymentMethodType.alfamart = PaymentMethod.voucher
payment_method_from PaymentMethodType.card_redirect = PaymentMethod.card_redirect
payment_method_from PaymentMethodType.cimb_va = PaymentMethod.bank_transfer
payment_method_from PaymentMethodType.classic_reward = PaymentMethod.reward
payment_method_from PaymentMethodType.credit = PaymentMethod.card
payment_method_from PaymentMethodType.crypto_currency = PaymentMethod.crypto
payment_method_from PaymentMethodType.dana = PaymentMethod.wallet
payment_method_from PaymentMethodType.danamon_va = PaymentMethod.bank_transfer
payment_method_from PaymentMethodType.debit = PaymentMethod.card
payment_method_from PaymentMethodType.eps = PaymentMethod.bank_redirect
payment_method_from PaymentMethodType.evoucher = PaymentMethod.reward
payment_method_from PaymentMethodType.giropay = PaymentMethod.bank_redirect
payment_method_from PaymentMethodType.google_pay = PaymentMethod.wallet
payment_method_from PaymentMethodType.go_pay = PaymentMethod.wallet
payment_method_from PaymentMethodType.gcash = PaymentMethod.wallet
payment_method_from PaymentMethodType.ideal = PaymentMethod.bank_redirect
payment_method_from PaymentMethodType.klarna = PaymentMethod.pay_later
payment_method_from PaymentMethodType.kakao_pay = PaymentMethod.wallet
payment_method_from PaymentMethodType.knet = PaymentMethod.card_redirect
payment_method_from PaymentMethodType.mb_way = PaymentMethod.wallet
payment_method_from PaymentMethodType.mobile_pay = PaymentMethod.wallet
payment_method_from PaymentMethodType.momo = PaymentMethod.wallet
payment_method_from PaymentMethodType.momo_atm = PaymentMethod.card_redirect
payment_method_from PaymentMethodType.multibanco = PaymentMethod.bank_transfer
payment_method_from PaymentMethodType.mandiri_va = PaymentMethod.bank_transfer
payment_method_from PaymentMethodType.interac = PaymentMethod.bank_redirect
payment_method_from PaymentMethodType.indomaret = PaymentMethod.voucher
payment_method_from PaymentMethodType.online_banking_czech_republic = PaymentMethod.bank_redirect
payment_method_from PaymentMethodType.online_banking_finland = PaymentMethod.bank_redirect
payment_method_from PaymentMethodType.online_banking_fpx = PaymentMethod.bank_redirect
payment_method_from PaymentMethodType.online_banking_thailand = PaymentMethod.bank_redirect
payment_method_from PaymentMethodType.online_banking_poland = PaymentMethod.bank_redirect
payment_method_from PaymentMethodType.online_banking_slovakia = PaymentMethod.bank_redirect
payment_method_from PaymentMethodType.permata_bank_transfer = PaymentMethod.bank_transfer
payment_method_from PaymentMethodType.pix = PaymentMethod.bank_transfer
payment_method_from PaymentMethodType.pse = PaymentMethod.bank_transfer
payment_method_from PaymentMethodType.pay_bright = PaymentMethod.pay_later
payment_method_from PaymentMethodType.paypal = PaymentMethod.wallet
payment_method_from PaymentMethodType.pay_safe_card = PaymentMethod.gift_card
payment_method_from PaymentMethodType.przelewy_24 = PaymentMethod.bank_redirect
payment_method_from PaymentMethodType.samsung_pay = PaymentMethod.wallet
payment_method_from PaymentMethodType.sepa = PaymentMethod.bank_debit
payment_method_from PaymentMethodType.sofort = PaymentMethod.bank_redirect
payment_method_from PaymentMethodType.swish = PaymentMethod.bank_redirect
payment_method_from PaymentMethodType.trustly = PaymentMethod.bank_redirect
payment_method_from PaymentMethodType.twint = PaymentMethod.wallet
payment_method_from PaymentMethodType.upi_collect = PaymentMethod.upi
payment_method_from PaymentMethodType.vipps = PaymentMethod.wallet
payment_method_from PaymentMethodType.walley = PaymentMethod.pay_later
payment_method_from PaymentMethodType.we_chat_pay = PaymentMethod.wallet
payment_method_from PaymentMethodType.touch_n_go = PaymentMethod.wallet
payment_method_from PaymentMethodType.atome = PaymentMethod.pay_later
payment_method_from PaymentMethodType.boleto = PaymentMethod.voucher
payment_method_from PaymentMethodType.efecty = PaymentMethod.voucher
payment_method_from PaymentMethodType.pago_efectivo = PaymentMethod.voucher
payment_method_from PaymentMethodType.red_compra = PaymentMethod.voucher
payment_method_from PaymentMethodType.red_pagos = PaymentMethod.voucher
payment_method_from PaymentMethodType.cashapp = PaymentMethod.wallet
payment_method_from PaymentMethodType.givex = PaymentMethod.gift_card
payment_method_from PaymentMethodType.oxxo = PaymentMethod.voucher
payment_method_from PaymentMethodType.open_banking_uk = PaymentMethod.bank_redirect
payment_method_from PaymentMethodType.seven_eleven = PaymentMethod.voucher
payment_method_from PaymentMethodType.lawson = PaymentMethod.voucher
payment_method_from PaymentMethodType.mini_stop = PaymentMethod.voucher
payment_method_from PaymentMethodType.family_mart = PaymentMethod.voucher
payment_method_from PaymentMethodType.seicomart = PaymentMethod.voucher
payment_method_from PaymentMethodType.pay_easy = PaymentMethod.voucher
