-- ===== src/Header.antt =====
-- The constants of ftdi.h that the drivers use. The header is libftdi's, so they are parameters.
use jtag_remote_server.Base.{ℕ}

pub record Header : Type 0 where
  pub mpsse_write_neg : ℕ
  pub mpsse_bitmode : ℕ
  pub mpsse_lsb : ℕ
  pub mpsse_do_write : ℕ
  pub mpsse_do_read : ℕ
  pub mpsse_write_tms : ℕ
  pub set_bits_low : ℕ
  pub set_bits_high : ℕ
  pub tck_divisor : ℕ
  pub dis_div_5 : ℕ
  pub send_immediate : ℕ
