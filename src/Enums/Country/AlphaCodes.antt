-- ===== src/Enums/Country/AlphaCodes.antt =====
-- `CountryAlpha2::from_alpha2_to_alpha3` of crates/common_enums/src/transformers.rs.
use mercado.Enums.Country.Types.{CountryAlpha2, CountryAlpha3}

unfoldable pub from_alpha2_to_alpha3 : CountryAlpha2 → CountryAlpha3
from_alpha2_to_alpha3 CountryAlpha2.af = CountryAlpha3.afg
from_alpha2_to_alpha3 CountryAlpha2.ax = CountryAlpha3.ala
from_alpha2_to_alpha3 CountryAlpha2.al = CountryAlpha3.alb
from_alpha2_to_alpha3 CountryAlpha2.dz = CountryAlpha3.dza
from_alpha2_to_alpha3 CountryAlpha2.«as» = CountryAlpha3.asm
from_alpha2_to_alpha3 CountryAlpha2.ad = CountryAlpha3.and
from_alpha2_to_alpha3 CountryAlpha2.ao = CountryAlpha3.ago
from_alpha2_to_alpha3 CountryAlpha2.ai = CountryAlpha3.aia
from_alpha2_to_alpha3 CountryAlpha2.aq = CountryAlpha3.ata
from_alpha2_to_alpha3 CountryAlpha2.ag = CountryAlpha3.atg
from_alpha2_to_alpha3 CountryAlpha2.ar = CountryAlpha3.arg
from_alpha2_to_alpha3 CountryAlpha2.am = CountryAlpha3.arm
from_alpha2_to_alpha3 CountryAlpha2.aw = CountryAlpha3.abw
from_alpha2_to_alpha3 CountryAlpha2.au = CountryAlpha3.aus
from_alpha2_to_alpha3 CountryAlpha2.at = CountryAlpha3.aut
from_alpha2_to_alpha3 CountryAlpha2.az = CountryAlpha3.aze
from_alpha2_to_alpha3 CountryAlpha2.bs = CountryAlpha3.bhs
from_alpha2_to_alpha3 CountryAlpha2.bh = CountryAlpha3.bhr
from_alpha2_to_alpha3 CountryAlpha2.bd = CountryAlpha3.bgd
from_alpha2_to_alpha3 CountryAlpha2.bb = CountryAlpha3.brb
from_alpha2_to_alpha3 CountryAlpha2.by = CountryAlpha3.blr
from_alpha2_to_alpha3 CountryAlpha2.be = CountryAlpha3.bel
from_alpha2_to_alpha3 CountryAlpha2.bz = CountryAlpha3.blz
from_alpha2_to_alpha3 CountryAlpha2.bj = CountryAlpha3.ben
from_alpha2_to_alpha3 CountryAlpha2.bm = CountryAlpha3.bmu
from_alpha2_to_alpha3 CountryAlpha2.bt = CountryAlpha3.btn
from_alpha2_to_alpha3 CountryAlpha2.bo = CountryAlpha3.bol
from_alpha2_to_alpha3 CountryAlpha2.bq = CountryAlpha3.bes
from_alpha2_to_alpha3 CountryAlpha2.ba = CountryAlpha3.bih
from_alpha2_to_alpha3 CountryAlpha2.bw = CountryAlpha3.bwa
from_alpha2_to_alpha3 CountryAlpha2.bv = CountryAlpha3.bvt
from_alpha2_to_alpha3 CountryAlpha2.br = CountryAlpha3.bra
from_alpha2_to_alpha3 CountryAlpha2.io = CountryAlpha3.iot
from_alpha2_to_alpha3 CountryAlpha2.bn = CountryAlpha3.brn
from_alpha2_to_alpha3 CountryAlpha2.bg = CountryAlpha3.bgr
from_alpha2_to_alpha3 CountryAlpha2.bf = CountryAlpha3.bfa
from_alpha2_to_alpha3 CountryAlpha2.bi = CountryAlpha3.bdi
from_alpha2_to_alpha3 CountryAlpha2.kh = CountryAlpha3.khm
from_alpha2_to_alpha3 CountryAlpha2.cm = CountryAlpha3.cmr
from_alpha2_to_alpha3 CountryAlpha2.ca = CountryAlpha3.can
from_alpha2_to_alpha3 CountryAlpha2.cv = CountryAlpha3.cpv
from_alpha2_to_alpha3 CountryAlpha2.ky = CountryAlpha3.cym
from_alpha2_to_alpha3 CountryAlpha2.cf = CountryAlpha3.caf
from_alpha2_to_alpha3 CountryAlpha2.td = CountryAlpha3.tcd
from_alpha2_to_alpha3 CountryAlpha2.cl = CountryAlpha3.chl
from_alpha2_to_alpha3 CountryAlpha2.cn = CountryAlpha3.chn
from_alpha2_to_alpha3 CountryAlpha2.cx = CountryAlpha3.cxr
from_alpha2_to_alpha3 CountryAlpha2.cc = CountryAlpha3.cck
from_alpha2_to_alpha3 CountryAlpha2.co = CountryAlpha3.col
from_alpha2_to_alpha3 CountryAlpha2.km = CountryAlpha3.«com»
from_alpha2_to_alpha3 CountryAlpha2.cg = CountryAlpha3.cog
from_alpha2_to_alpha3 CountryAlpha2.cd = CountryAlpha3.cod
from_alpha2_to_alpha3 CountryAlpha2.ck = CountryAlpha3.cok
from_alpha2_to_alpha3 CountryAlpha2.cr = CountryAlpha3.cri
from_alpha2_to_alpha3 CountryAlpha2.ci = CountryAlpha3.civ
from_alpha2_to_alpha3 CountryAlpha2.hr = CountryAlpha3.hrv
from_alpha2_to_alpha3 CountryAlpha2.cu = CountryAlpha3.cub
from_alpha2_to_alpha3 CountryAlpha2.cw = CountryAlpha3.cuw
from_alpha2_to_alpha3 CountryAlpha2.cy = CountryAlpha3.cyp
from_alpha2_to_alpha3 CountryAlpha2.cz = CountryAlpha3.cze
from_alpha2_to_alpha3 CountryAlpha2.dk = CountryAlpha3.dnk
from_alpha2_to_alpha3 CountryAlpha2.dj = CountryAlpha3.dji
from_alpha2_to_alpha3 CountryAlpha2.dm = CountryAlpha3.dma
from_alpha2_to_alpha3 CountryAlpha2.«do» = CountryAlpha3.dom
from_alpha2_to_alpha3 CountryAlpha2.ec = CountryAlpha3.ecu
from_alpha2_to_alpha3 CountryAlpha2.eg = CountryAlpha3.egy
from_alpha2_to_alpha3 CountryAlpha2.sv = CountryAlpha3.slv
from_alpha2_to_alpha3 CountryAlpha2.gq = CountryAlpha3.gnq
from_alpha2_to_alpha3 CountryAlpha2.er = CountryAlpha3.eri
from_alpha2_to_alpha3 CountryAlpha2.ee = CountryAlpha3.est
from_alpha2_to_alpha3 CountryAlpha2.et = CountryAlpha3.eth
from_alpha2_to_alpha3 CountryAlpha2.fk = CountryAlpha3.flk
from_alpha2_to_alpha3 CountryAlpha2.fo = CountryAlpha3.fro
from_alpha2_to_alpha3 CountryAlpha2.fj = CountryAlpha3.fji
from_alpha2_to_alpha3 CountryAlpha2.fi = CountryAlpha3.fin
from_alpha2_to_alpha3 CountryAlpha2.fr = CountryAlpha3.fra
from_alpha2_to_alpha3 CountryAlpha2.gf = CountryAlpha3.guf
from_alpha2_to_alpha3 CountryAlpha2.pf = CountryAlpha3.pyf
from_alpha2_to_alpha3 CountryAlpha2.tf = CountryAlpha3.atf
from_alpha2_to_alpha3 CountryAlpha2.ga = CountryAlpha3.gab
from_alpha2_to_alpha3 CountryAlpha2.gm = CountryAlpha3.gmb
from_alpha2_to_alpha3 CountryAlpha2.ge = CountryAlpha3.geo
from_alpha2_to_alpha3 CountryAlpha2.de = CountryAlpha3.deu
from_alpha2_to_alpha3 CountryAlpha2.gh = CountryAlpha3.gha
from_alpha2_to_alpha3 CountryAlpha2.gi = CountryAlpha3.gib
from_alpha2_to_alpha3 CountryAlpha2.gr = CountryAlpha3.grc
from_alpha2_to_alpha3 CountryAlpha2.gl = CountryAlpha3.grl
from_alpha2_to_alpha3 CountryAlpha2.gd = CountryAlpha3.grd
from_alpha2_to_alpha3 CountryAlpha2.gp = CountryAlpha3.glp
from_alpha2_to_alpha3 CountryAlpha2.gu = CountryAlpha3.gum
from_alpha2_to_alpha3 CountryAlpha2.gt = CountryAlpha3.gtm
from_alpha2_to_alpha3 CountryAlpha2.gg = CountryAlpha3.ggy
from_alpha2_to_alpha3 CountryAlpha2.gn = CountryAlpha3.gin
from_alpha2_to_alpha3 CountryAlpha2.gw = CountryAlpha3.gnb
from_alpha2_to_alpha3 CountryAlpha2.gy = CountryAlpha3.guy
from_alpha2_to_alpha3 CountryAlpha2.ht = CountryAlpha3.hti
from_alpha2_to_alpha3 CountryAlpha2.hm = CountryAlpha3.hmd
from_alpha2_to_alpha3 CountryAlpha2.va = CountryAlpha3.vat
from_alpha2_to_alpha3 CountryAlpha2.hn = CountryAlpha3.hnd
from_alpha2_to_alpha3 CountryAlpha2.hk = CountryAlpha3.hkg
from_alpha2_to_alpha3 CountryAlpha2.hu = CountryAlpha3.hun
from_alpha2_to_alpha3 CountryAlpha2.is = CountryAlpha3.isl
from_alpha2_to_alpha3 CountryAlpha2.«in» = CountryAlpha3.ind
from_alpha2_to_alpha3 CountryAlpha2.id = CountryAlpha3.idn
from_alpha2_to_alpha3 CountryAlpha2.ir = CountryAlpha3.irn
from_alpha2_to_alpha3 CountryAlpha2.iq = CountryAlpha3.irq
from_alpha2_to_alpha3 CountryAlpha2.ie = CountryAlpha3.irl
from_alpha2_to_alpha3 CountryAlpha2.im = CountryAlpha3.imn
from_alpha2_to_alpha3 CountryAlpha2.il = CountryAlpha3.isr
from_alpha2_to_alpha3 CountryAlpha2.it = CountryAlpha3.ita
from_alpha2_to_alpha3 CountryAlpha2.jm = CountryAlpha3.jam
from_alpha2_to_alpha3 CountryAlpha2.jp = CountryAlpha3.jpn
from_alpha2_to_alpha3 CountryAlpha2.je = CountryAlpha3.jey
from_alpha2_to_alpha3 CountryAlpha2.jo = CountryAlpha3.jor
from_alpha2_to_alpha3 CountryAlpha2.kz = CountryAlpha3.kaz
from_alpha2_to_alpha3 CountryAlpha2.ke = CountryAlpha3.ken
from_alpha2_to_alpha3 CountryAlpha2.ki = CountryAlpha3.kir
from_alpha2_to_alpha3 CountryAlpha2.kp = CountryAlpha3.prk
from_alpha2_to_alpha3 CountryAlpha2.kr = CountryAlpha3.kor
from_alpha2_to_alpha3 CountryAlpha2.kw = CountryAlpha3.kwt
from_alpha2_to_alpha3 CountryAlpha2.kg = CountryAlpha3.kgz
from_alpha2_to_alpha3 CountryAlpha2.la = CountryAlpha3.lao
from_alpha2_to_alpha3 CountryAlpha2.lv = CountryAlpha3.lva
from_alpha2_to_alpha3 CountryAlpha2.lb = CountryAlpha3.lbn
from_alpha2_to_alpha3 CountryAlpha2.ls = CountryAlpha3.lso
from_alpha2_to_alpha3 CountryAlpha2.lr = CountryAlpha3.lbr
from_alpha2_to_alpha3 CountryAlpha2.ly = CountryAlpha3.lby
from_alpha2_to_alpha3 CountryAlpha2.li = CountryAlpha3.lie
from_alpha2_to_alpha3 CountryAlpha2.lt = CountryAlpha3.ltu
from_alpha2_to_alpha3 CountryAlpha2.lu = CountryAlpha3.lux
from_alpha2_to_alpha3 CountryAlpha2.mo = CountryAlpha3.mac
from_alpha2_to_alpha3 CountryAlpha2.mk = CountryAlpha3.mkd
from_alpha2_to_alpha3 CountryAlpha2.mg = CountryAlpha3.mdg
from_alpha2_to_alpha3 CountryAlpha2.mw = CountryAlpha3.mwi
from_alpha2_to_alpha3 CountryAlpha2.my = CountryAlpha3.mys
from_alpha2_to_alpha3 CountryAlpha2.mv = CountryAlpha3.mdv
from_alpha2_to_alpha3 CountryAlpha2.ml = CountryAlpha3.mli
from_alpha2_to_alpha3 CountryAlpha2.mt = CountryAlpha3.mlt
from_alpha2_to_alpha3 CountryAlpha2.mh = CountryAlpha3.mhl
from_alpha2_to_alpha3 CountryAlpha2.mq = CountryAlpha3.mtq
from_alpha2_to_alpha3 CountryAlpha2.mr = CountryAlpha3.mrt
from_alpha2_to_alpha3 CountryAlpha2.mu = CountryAlpha3.mus
from_alpha2_to_alpha3 CountryAlpha2.yt = CountryAlpha3.myt
from_alpha2_to_alpha3 CountryAlpha2.mx = CountryAlpha3.mex
from_alpha2_to_alpha3 CountryAlpha2.fm = CountryAlpha3.fsm
from_alpha2_to_alpha3 CountryAlpha2.md = CountryAlpha3.mda
from_alpha2_to_alpha3 CountryAlpha2.mc = CountryAlpha3.mco
from_alpha2_to_alpha3 CountryAlpha2.mn = CountryAlpha3.mng
from_alpha2_to_alpha3 CountryAlpha2.me = CountryAlpha3.mne
from_alpha2_to_alpha3 CountryAlpha2.ms = CountryAlpha3.msr
from_alpha2_to_alpha3 CountryAlpha2.ma = CountryAlpha3.mar
from_alpha2_to_alpha3 CountryAlpha2.mz = CountryAlpha3.moz
from_alpha2_to_alpha3 CountryAlpha2.mm = CountryAlpha3.mmr
from_alpha2_to_alpha3 CountryAlpha2.na = CountryAlpha3.nam
from_alpha2_to_alpha3 CountryAlpha2.nr = CountryAlpha3.nru
from_alpha2_to_alpha3 CountryAlpha2.np = CountryAlpha3.npl
from_alpha2_to_alpha3 CountryAlpha2.nl = CountryAlpha3.nld
from_alpha2_to_alpha3 CountryAlpha2.nc = CountryAlpha3.ncl
from_alpha2_to_alpha3 CountryAlpha2.nz = CountryAlpha3.nzl
from_alpha2_to_alpha3 CountryAlpha2.ni = CountryAlpha3.nic
from_alpha2_to_alpha3 CountryAlpha2.ne = CountryAlpha3.ner
from_alpha2_to_alpha3 CountryAlpha2.ng = CountryAlpha3.nga
from_alpha2_to_alpha3 CountryAlpha2.nu = CountryAlpha3.niu
from_alpha2_to_alpha3 CountryAlpha2.nf = CountryAlpha3.nfk
from_alpha2_to_alpha3 CountryAlpha2.mp = CountryAlpha3.mnp
from_alpha2_to_alpha3 CountryAlpha2.no = CountryAlpha3.nor
from_alpha2_to_alpha3 CountryAlpha2.om = CountryAlpha3.omn
from_alpha2_to_alpha3 CountryAlpha2.pk = CountryAlpha3.pak
from_alpha2_to_alpha3 CountryAlpha2.pw = CountryAlpha3.plw
from_alpha2_to_alpha3 CountryAlpha2.ps = CountryAlpha3.pse
from_alpha2_to_alpha3 CountryAlpha2.pa = CountryAlpha3.pan
from_alpha2_to_alpha3 CountryAlpha2.pg = CountryAlpha3.png
from_alpha2_to_alpha3 CountryAlpha2.py = CountryAlpha3.pry
from_alpha2_to_alpha3 CountryAlpha2.pe = CountryAlpha3.per
from_alpha2_to_alpha3 CountryAlpha2.ph = CountryAlpha3.phl
from_alpha2_to_alpha3 CountryAlpha2.pn = CountryAlpha3.pcn
from_alpha2_to_alpha3 CountryAlpha2.pl = CountryAlpha3.pol
from_alpha2_to_alpha3 CountryAlpha2.pt = CountryAlpha3.prt
from_alpha2_to_alpha3 CountryAlpha2.pr = CountryAlpha3.pri
from_alpha2_to_alpha3 CountryAlpha2.qa = CountryAlpha3.qat
from_alpha2_to_alpha3 CountryAlpha2.re = CountryAlpha3.reu
from_alpha2_to_alpha3 CountryAlpha2.ro = CountryAlpha3.rou
from_alpha2_to_alpha3 CountryAlpha2.ru = CountryAlpha3.rus
from_alpha2_to_alpha3 CountryAlpha2.rw = CountryAlpha3.rwa
from_alpha2_to_alpha3 CountryAlpha2.bl = CountryAlpha3.blm
from_alpha2_to_alpha3 CountryAlpha2.sh = CountryAlpha3.shn
from_alpha2_to_alpha3 CountryAlpha2.kn = CountryAlpha3.kna
from_alpha2_to_alpha3 CountryAlpha2.lc = CountryAlpha3.lca
from_alpha2_to_alpha3 CountryAlpha2.mf = CountryAlpha3.maf
from_alpha2_to_alpha3 CountryAlpha2.pm = CountryAlpha3.spm
from_alpha2_to_alpha3 CountryAlpha2.vc = CountryAlpha3.vct
from_alpha2_to_alpha3 CountryAlpha2.ws = CountryAlpha3.wsm
from_alpha2_to_alpha3 CountryAlpha2.sm = CountryAlpha3.smr
from_alpha2_to_alpha3 CountryAlpha2.st = CountryAlpha3.stp
from_alpha2_to_alpha3 CountryAlpha2.sa = CountryAlpha3.sau
from_alpha2_to_alpha3 CountryAlpha2.sn = CountryAlpha3.sen
from_alpha2_to_alpha3 CountryAlpha2.rs = CountryAlpha3.srb
from_alpha2_to_alpha3 CountryAlpha2.sc = CountryAlpha3.syc
from_alpha2_to_alpha3 CountryAlpha2.sl = CountryAlpha3.sle
from_alpha2_to_alpha3 CountryAlpha2.sg = CountryAlpha3.sgp
from_alpha2_to_alpha3 CountryAlpha2.sx = CountryAlpha3.sxm
from_alpha2_to_alpha3 CountryAlpha2.sk = CountryAlpha3.svk
from_alpha2_to_alpha3 CountryAlpha2.si = CountryAlpha3.svn
from_alpha2_to_alpha3 CountryAlpha2.sb = CountryAlpha3.slb
from_alpha2_to_alpha3 CountryAlpha2.so = CountryAlpha3.som
from_alpha2_to_alpha3 CountryAlpha2.za = CountryAlpha3.zaf
from_alpha2_to_alpha3 CountryAlpha2.gs = CountryAlpha3.sgs
from_alpha2_to_alpha3 CountryAlpha2.ss = CountryAlpha3.ssd
from_alpha2_to_alpha3 CountryAlpha2.es = CountryAlpha3.esp
from_alpha2_to_alpha3 CountryAlpha2.lk = CountryAlpha3.lka
from_alpha2_to_alpha3 CountryAlpha2.sd = CountryAlpha3.sdn
from_alpha2_to_alpha3 CountryAlpha2.sr = CountryAlpha3.sur
from_alpha2_to_alpha3 CountryAlpha2.sj = CountryAlpha3.sjm
from_alpha2_to_alpha3 CountryAlpha2.sz = CountryAlpha3.swz
from_alpha2_to_alpha3 CountryAlpha2.se = CountryAlpha3.swe
from_alpha2_to_alpha3 CountryAlpha2.ch = CountryAlpha3.che
from_alpha2_to_alpha3 CountryAlpha2.sy = CountryAlpha3.syr
from_alpha2_to_alpha3 CountryAlpha2.tw = CountryAlpha3.twn
from_alpha2_to_alpha3 CountryAlpha2.tj = CountryAlpha3.tjk
from_alpha2_to_alpha3 CountryAlpha2.tz = CountryAlpha3.tza
from_alpha2_to_alpha3 CountryAlpha2.th = CountryAlpha3.tha
from_alpha2_to_alpha3 CountryAlpha2.tl = CountryAlpha3.tls
from_alpha2_to_alpha3 CountryAlpha2.tg = CountryAlpha3.tgo
from_alpha2_to_alpha3 CountryAlpha2.tk = CountryAlpha3.tkl
from_alpha2_to_alpha3 CountryAlpha2.to = CountryAlpha3.ton
from_alpha2_to_alpha3 CountryAlpha2.tt = CountryAlpha3.tto
from_alpha2_to_alpha3 CountryAlpha2.tn = CountryAlpha3.tun
from_alpha2_to_alpha3 CountryAlpha2.tr = CountryAlpha3.tur
from_alpha2_to_alpha3 CountryAlpha2.tm = CountryAlpha3.tkm
from_alpha2_to_alpha3 CountryAlpha2.tc = CountryAlpha3.tca
from_alpha2_to_alpha3 CountryAlpha2.tv = CountryAlpha3.tuv
from_alpha2_to_alpha3 CountryAlpha2.ug = CountryAlpha3.uga
from_alpha2_to_alpha3 CountryAlpha2.ua = CountryAlpha3.ukr
from_alpha2_to_alpha3 CountryAlpha2.ae = CountryAlpha3.are
from_alpha2_to_alpha3 CountryAlpha2.gb = CountryAlpha3.gbr
from_alpha2_to_alpha3 CountryAlpha2.um = CountryAlpha3.umi
from_alpha2_to_alpha3 CountryAlpha2.uy = CountryAlpha3.ury
from_alpha2_to_alpha3 CountryAlpha2.uz = CountryAlpha3.uzb
from_alpha2_to_alpha3 CountryAlpha2.vu = CountryAlpha3.vut
from_alpha2_to_alpha3 CountryAlpha2.ve = CountryAlpha3.ven
from_alpha2_to_alpha3 CountryAlpha2.vn = CountryAlpha3.vnm
from_alpha2_to_alpha3 CountryAlpha2.vg = CountryAlpha3.vgb
from_alpha2_to_alpha3 CountryAlpha2.vi = CountryAlpha3.vir
from_alpha2_to_alpha3 CountryAlpha2.wf = CountryAlpha3.wlf
from_alpha2_to_alpha3 CountryAlpha2.eh = CountryAlpha3.esh
from_alpha2_to_alpha3 CountryAlpha2.ye = CountryAlpha3.yem
from_alpha2_to_alpha3 CountryAlpha2.zm = CountryAlpha3.zmb
from_alpha2_to_alpha3 CountryAlpha2.zw = CountryAlpha3.zwe
from_alpha2_to_alpha3 CountryAlpha2.us = CountryAlpha3.usa
