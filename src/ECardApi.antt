-- ===== src/ECardApi.antt =====
-- src/global/ECardApiResult.cpp: the conversion between the codes of GlobalStatus and the minor
-- results of the eCard API.
pub mod Minor
pub mod Maps
pub mod Conversion
pub mod Laws
