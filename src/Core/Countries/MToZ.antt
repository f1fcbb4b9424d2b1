-- ===== src/Core/Countries/MToZ.antt =====
-- app/core/countries.py: the rows of COUNTRIES from Macao on.
use bridge_pay_backend.Common.{List, [], ◌∷◌}
use bridge_pay_backend.Core.Countries.Row.{Country, country}

abbrev pub countries_from_m : List Country
countries_from_m =
    country "MO" "Macao"
    ∷ country "MG" "Madagascar"
    ∷ country "MW" "Malawi"
    ∷ country "MY" "Malaysia"
    ∷ country "MV" "Maldives"
    ∷ country "ML" "Mali"
    ∷ country "MT" "Malta"
    ∷ country "MH" "Marshall Islands"
    ∷ country "MQ" "Martinique"
    ∷ country "MR" "Mauritania"
    ∷ country "MU" "Mauritius"
    ∷ country "YT" "Mayotte"
    ∷ country "MX" "Mexico"
    ∷ country "FM" "Micronesia, Federated States of"
    ∷ country "MD" "Moldova, Republic of"
    ∷ country "MC" "Monaco"
    ∷ country "MN" "Mongolia"
    ∷ country "ME" "Montenegro"
    ∷ country "MS" "Montserrat"
    ∷ country "MA" "Morocco"
    ∷ country "MZ" "Mozambique"
    ∷ country "MM" "Myanmar"
    ∷ country "NA" "Namibia"
    ∷ country "NR" "Nauru"
    ∷ country "NP" "Nepal"
    ∷ country "NL" "Netherlands"
    ∷ country "NC" "New Caledonia"
    ∷ country "NZ" "New Zealand"
    ∷ country "NI" "Nicaragua"
    ∷ country "NE" "Niger"
    ∷ country "NG" "Nigeria"
    ∷ country "NU" "Niue"
    ∷ country "NF" "Norfolk Island"
    ∷ country "MK" "North Macedonia"
    ∷ country "MP" "Northern Mariana Islands"
    ∷ country "NO" "Norway"
    ∷ country "OM" "Oman"
    ∷ country "PK" "Pakistan"
    ∷ country "PW" "Palau"
    ∷ country "PS" "Palestine, State of"
    ∷ country "PA" "Panama"
    ∷ country "PG" "Papua New Guinea"
    ∷ country "PY" "Paraguay"
    ∷ country "PE" "Peru"
    ∷ country "PH" "Philippines"
    ∷ country "PN" "Pitcairn"
    ∷ country "PL" "Poland"
    ∷ country "PT" "Portugal"
    ∷ country "PR" "Puerto Rico"
    ∷ country "QA" "Qatar"
    ∷ country "RO" "Romania"
    ∷ country "RU" "Russian Federation"
    ∷ country "RW" "Rwanda"
    ∷ country "RE" "Réunion"
    ∷ country "BL" "Saint Barthélemy"
    ∷ country "SH" "Saint Helena, Ascension and Tristan da Cunha"
    ∷ country "KN" "Saint Kitts and Nevis"
    ∷ country "LC" "Saint Lucia"
    ∷ country "MF" "Saint Martin (French part)"
    ∷ country "PM" "Saint Pierre and Miquelon"
    ∷ country "VC" "Saint Vincent and the Grenadines"
    ∷ country "WS" "Samoa"
    ∷ country "SM" "San Marino"
    ∷ country "ST" "Sao Tome and Principe"
    ∷ country "SA" "Saudi Arabia"
    ∷ country "SN" "Senegal"
    ∷ country "RS" "Serbia"
    ∷ country "SC" "Seychelles"
    ∷ country "SL" "Sierra Leone"
    ∷ country "SG" "Singapore"
    ∷ country "SX" "Sint Maarten (Dutch part)"
    ∷ country "SK" "Slovakia"
    ∷ country "SI" "Slovenia"
    ∷ country "SB" "Solomon Islands"
    ∷ country "SO" "Somalia"
    ∷ country "ZA" "South Africa"
    ∷ country "GS" "South Georgia and the South Sandwich Islands"
    ∷ country "SS" "South Sudan"
    ∷ country "ES" "Spain"
    ∷ country "LK" "Sri Lanka"
    ∷ country "SD" "Sudan"
    ∷ country "SR" "Suriname"
    ∷ country "SJ" "Svalbard and Jan Mayen"
    ∷ country "SE" "Sweden"
    ∷ country "CH" "Switzerland"
    ∷ country "SY" "Syrian Arab Republic"
    ∷ country "TW" "Taiwan, Province of China"
    ∷ country "TJ" "Tajikistan"
    ∷ country "TZ" "Tanzania, United Republic of"
    ∷ country "TH" "Thailand"
    ∷ country "TL" "Timor-Leste"
    ∷ country "TG" "Togo"
    ∷ country "TK" "Tokelau"
    ∷ country "TO" "Tonga"
    ∷ country "TT" "Trinidad and Tobago"
    ∷ country "TN" "Tunisia"
    ∷ country "TM" "Turkmenistan"
    ∷ country "TC" "Turks and Caicos Islands"
    ∷ country "TV" "Tuvalu"
    ∷ country "TR" "Türkiye"
    ∷ country "UG" "Uganda"
    ∷ country "UA" "Ukraine"
    ∷ country "AE" "United Arab Emirates"
    ∷ country "GB" "United Kingdom"
    ∷ country "US" "United States"
    ∷ country "UM" "United States Minor Outlying Islands"
    ∷ country "UY" "Uruguay"
    ∷ country "UZ" "Uzbekistan"
    ∷ country "VU" "Vanuatu"
    ∷ country "VE" "Venezuela, Bolivarian Republic of"
    ∷ country "VN" "Viet Nam"
    ∷ country "VG" "Virgin Islands, British"
    ∷ country "VI" "Virgin Islands, U.S."
    ∷ country "WF" "Wallis and Futuna"
    ∷ country "EH" "Western Sahara"
    ∷ country "YE" "Yemen"
    ∷ country "ZM" "Zambia"
    ∷ country "ZW" "Zimbabwe"
    ∷ country "AX" "Åland Islands"
    ∷ []
