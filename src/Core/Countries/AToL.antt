-- ===== src/Core/Countries/AToL.antt =====
-- app/core/countries.py: the rows of COUNTRIES from Afghanistan to Luxembourg.
use bridge_pay_backend.Common.{List, [], ◌∷◌}
use bridge_pay_backend.Core.Countries.Row.{Country, country}

abbrev pub countries_to_l : List Country
countries_to_l =
    country "AF" "Afghanistan"
    ∷ country "AL" "Albania"
    ∷ country "DZ" "Algeria"
    ∷ country "AS" "American Samoa"
    ∷ country "AD" "Andorra"
    ∷ country "AO" "Angola"
    ∷ country "AI" "Anguilla"
    ∷ country "AQ" "Antarctica"
    ∷ country "AG" "Antigua and Barbuda"
    ∷ country "AR" "Argentina"
    ∷ country "AM" "Armenia"
    ∷ country "AW" "Aruba"
    ∷ country "AU" "Australia"
    ∷ country "AT" "Austria"
    ∷ country "AZ" "Azerbaijan"
    ∷ country "BS" "Bahamas"
    ∷ country "BH" "Bahrain"
    ∷ country "BD" "Bangladesh"
    ∷ country "BB" "Barbados"
    ∷ country "BY" "Belarus"
    ∷ country "BE" "Belgium"
    ∷ country "BZ" "Belize"
    ∷ country "BJ" "Benin"
    ∷ country "BM" "Bermuda"
    ∷ country "BT" "Bhutan"
    ∷ country "BO" "Bolivia, Plurinational State of"
    ∷ country "BQ" "Bonaire, Sint Eustatius and Saba"
    ∷ country "BA" "Bosnia and Herzegovina"
    ∷ country "BW" "Botswana"
    ∷ country "BV" "Bouvet Island"
    ∷ country "BR" "Brazil"
    ∷ country "IO" "British Indian Ocean Territory"
    ∷ country "BN" "Brunei Darussalam"
    ∷ country "BG" "Bulgaria"
    ∷ country "BF" "Burkina Faso"
    ∷ country "BI" "Burundi"
    ∷ country "CV" "Cabo Verde"
    ∷ country "KH" "Cambodia"
    ∷ country "CM" "Cameroon"
    ∷ country "CA" "Canada"
    ∷ country "KY" "Cayman Islands"
    ∷ country "CF" "Central African Republic"
    ∷ country "TD" "Chad"
    ∷ country "CL" "Chile"
    ∷ country "CN" "China"
    ∷ country "CX" "Christmas Island"
    ∷ country "CC" "Cocos (Keeling) Islands"
    ∷ country "CO" "Colombia"
    ∷ country "KM" "Comoros"
    ∷ country "CG" "Congo"
    ∷ country "CD" "Congo, The Democratic Republic of the"
    ∷ country "CK" "Cook Islands"
    ∷ country "CR" "Costa Rica"
    ∷ country "HR" "Croatia"
    ∷ country "CU" "Cuba"
    ∷ country "CW" "Curaçao"
    ∷ country "CY" "Cyprus"
    ∷ country "CZ" "Czechia"
    ∷ country "CI" "Côte d'Ivoire"
    ∷ country "DK" "Denmark"
    ∷ country "DJ" "Djibouti"
    ∷ country "DM" "Dominica"
    ∷ country "DO" "Dominican Republic"
    ∷ country "EC" "Ecuador"
    ∷ country "EG" "Egypt"
    ∷ country "SV" "El Salvador"
    ∷ country "GQ" "Equatorial Guinea"
    ∷ country "ER" "Eritrea"
    ∷ country "EE" "Estonia"
    ∷ country "SZ" "Eswatini"
    ∷ country "ET" "Ethiopia"
    ∷ country "FK" "Falkland Islands (Malvinas)"
    ∷ country "FO" "Faroe Islands"
    ∷ country "FJ" "Fiji"
    ∷ country "FI" "Finland"
    ∷ country "FR" "France"
    ∷ country "GF" "French Guiana"
    ∷ country "PF" "French Polynesia"
    ∷ country "TF" "French Southern Territories"
    ∷ country "GA" "Gabon"
    ∷ country "GM" "Gambia"
    ∷ country "GE" "Georgia"
    ∷ country "DE" "Germany"
    ∷ country "GH" "Ghana"
    ∷ country "GI" "Gibraltar"
    ∷ country "GR" "Greece"
    ∷ country "GL" "Greenland"
    ∷ country "GD" "Grenada"
    ∷ country "GP" "Guadeloupe"
    ∷ country "GU" "Guam"
    ∷ country "GT" "Guatemala"
    ∷ country "GG" "Guernsey"
    ∷ country "GN" "Guinea"
    ∷ country "GW" "Guinea-Bissau"
    ∷ country "GY" "Guyana"
    ∷ country "HT" "Haiti"
    ∷ country "HM" "Heard Island and McDonald Islands"
    ∷ country "VA" "Holy See (Vatican City State)"
    ∷ country "HN" "Honduras"
    ∷ country "HK" "Hong Kong"
    ∷ country "HU" "Hungary"
    ∷ country "IS" "Iceland"
    ∷ country "IN" "India"
    ∷ country "ID" "Indonesia"
    ∷ country "IR" "Iran, Islamic Republic of"
    ∷ country "IQ" "Iraq"
    ∷ country "IE" "Ireland"
    ∷ country "IM" "Isle of Man"
    ∷ country "IL" "Israel"
    ∷ country "IT" "Italy"
    ∷ country "JM" "Jamaica"
    ∷ country "JP" "Japan"
    ∷ country "JE" "Jersey"
    ∷ country "JO" "Jordan"
    ∷ country "KZ" "Kazakhstan"
    ∷ country "KE" "Kenya"
    ∷ country "KI" "Kiribati"
    ∷ country "KP" "Korea, Democratic People's Republic of"
    ∷ country "KR" "Korea, Republic of"
    ∷ country "KW" "Kuwait"
    ∷ country "KG" "Kyrgyzstan"
    ∷ country "LA" "Lao People's Democratic Republic"
    ∷ country "LV" "Latvia"
    ∷ country "LB" "Lebanon"
    ∷ country "LS" "Lesotho"
    ∷ country "LR" "Liberia"
    ∷ country "LY" "Libya"
    ∷ country "LI" "Liechtenstein"
    ∷ country "LT" "Lithuania"
    ∷ country "LU" "Luxembourg"
    ∷ []
