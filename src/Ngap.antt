-- ===== src/Ngap.antt =====
-- src/ngapfast.py: the gNB's NGAP messages without pycrate. The APER encodings that it uses, the
-- templates of the uplink messages, and the parser of the downlink ones.
pub mod Aper
pub mod Pdu
pub mod Uplink
pub mod Downlink
mod Examples
